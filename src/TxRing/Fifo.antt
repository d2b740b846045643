-- ===== src/TxRing/Fifo.antt =====
-- The ring is a queue of at most 63 packets.
use sec_fw.Common.{
  ℕ, zero, suc, ◌+◌, ◌-◌, ◌%◌, ◌<◌, ◌≡◌, ◌≢◌, refl, ap, inl, inr, ◌⊎◌, Bool, Bool-cases, true,
  false, ◌==◌, ltb, List, [], ◌∷◌, ◌++◌, length, Option, some, arith,
}
use sec_fw.TxRing.{
  TxDone, write, oct_pend_tx_done_add, oct_pend_tx_done_remove, TxResult, send_over, sw_desc_err,
  sw_send_err, oct_tx_process_mbuf, check_loop, oct_tx_done_check,
}

-- The packets from an index on.
abbrev pub Holds : (ℕ → ℕ) → ℕ → List ℕ → Type 0
Holds mb c [] = Unit
Holds mb c (x ∷ xs) = (mb c ≡ x) × Holds mb ((c + 1) % 64) xs

-- The ring holds the queue, the oldest packet at `consumer`.
pub record Represents (t : TxDone) (queue : List ℕ) : Type 0 where
  pub entries : t.tx_entries ≡ length queue
  pub bound : length queue < 64
  pub consumer : t.consumer < 64
  pub producer : t.producer ≡ (t.consumer + length queue) % 64
  pub packets : Holds t.mb t.consumer queue

-- The index behind the queue is none of its own.
Holds-write :
    (mb : ℕ → ℕ) (c p m : ℕ) (queue : List ℕ)
    → c < 64
    → length queue < 64
    → p ≡ (c + length queue) % 64
    → Holds mb c queue
    → Holds (write mb p m) c (queue ++ (m ∷ []))
Holds-write mb c p m [] hc hl e h =
    let here : c ≡ p = omega arith in let test : (c == p) ≡ true = ground arith in (rw test refl, _)
Holds-write mb c p m (x ∷ xs) hc hl e (h, hs) =
    let apart : c ≢ p = λ same. absurd (omega arith) in
    let other : (c == p) ≡ false = ground arith in
    (rw other h, Holds-write mb ((c + 1) % 64) p m xs (omega arith) (omega arith) (omega arith) hs)

-- A packet that is added and removed again leaves the queue.
Holds-removed :
    (mb : ℕ → ℕ) (c p m : ℕ) (queue : List ℕ)
    → c < 64
    → length queue < 64
    → p ≡ (c + length queue) % 64
    → Holds mb c queue
    → Holds (write mb p m) c queue
Holds-removed mb c p m [] hc hl e h = _
Holds-removed mb c p m (x ∷ xs) hc hl e (h, hs) =
    let apart : c ≢ p = λ same. absurd (omega arith) in
    let other : (c == p) ≡ false = ground arith in
    (
      rw other h,
      Holds-removed mb ((c + 1) % 64) p m xs (omega arith) (omega arith) (omega arith) hs,
    )

length-snoc : (xs : List ℕ) (x : ℕ) → length (xs ++ (x ∷ [])) ≡ length xs + 1
length-snoc [] x = refl
length-snoc (y ∷ ys) x = let rest = length-snoc ys x in omega arith

added-Represents :
    (t : TxDone) (m : ℕ) (queue : List ℕ)
    → Represents t queue
    → length queue < 63
    → Represents (oct_pend_tx_done_add t m) (queue ++ (m ∷ []))
unfolding oct_pend_tx_done_add
added-Represents t m queue r room =
    let entries = r.entries in
    let consumer = r.consumer in
    let producer = r.producer in
    let longer = length-snoc queue m in
    record {
      entries = omega arith;
      bound = omega arith;
      consumer = consumer;
      producer = omega arith;
      packets = Holds-write t.mb t.consumer t.producer m queue consumer r.bound producer r.packets;
    }

removed-Represents :
    (t : TxDone) (m : ℕ) (queue : List ℕ)
    → Represents t queue
    → length queue < 63
    → Represents (oct_pend_tx_done_remove (oct_pend_tx_done_add t m)) queue
unfolding oct_pend_tx_done_add oct_pend_tx_done_remove
removed-Represents t m queue r room =
    let entries = r.entries in
    let consumer = r.consumer in
    let producer = r.producer in
    record {
      entries = omega arith;
      bound = r.bound;
      consumer = consumer;
      producer = omega arith;
      packets =
          Holds-removed t.mb t.consumer t.producer m queue consumer r.bound producer r.packets;
    }

-- What oct_tx_process_mbuf does to the queue, and what it says of the packet.
abbrev pub Transmitted : List ℕ → ℕ → Bool → TxResult × TxDone → Type 0
Transmitted queue m sent r =
    ((length queue ≡ 63) × (r.0 ≡ sw_desc_err) × Represents r.1 queue)
    ⊎ ((sent ≡ false) × (r.0 ≡ sw_send_err) × Represents r.1 queue)
    ⊎ ((sent ≡ true) × (r.0 ≡ send_over) × Represents r.1 (queue ++ (m ∷ [])))

pub oct_tx_process_mbuf-Transmitted :
    (sent : Bool) (t : TxDone) (m : ℕ) (queue : List ℕ)
    → Represents t queue
    → Transmitted queue m sent (oct_tx_process_mbuf sent t m)
unfolding oct_tx_process_mbuf
oct_tx_process_mbuf-Transmitted sent t m queue r =
    let entries = r.entries in
    let bound = r.bound in
    elim (Bool-cases (ltb t.tx_entries 63)) [
      | inl e ↦
          let room : length queue < 63 = ground arith in
          elim (Bool-cases sent) [
            | inl ok ↦ rw (e, ok) (inr (inr (refl, refl, added-Represents t m queue r room)))
            | inr failed ↦
                rw (e, failed) (inr (inl (refl, refl, removed-Represents t m queue r room)))
          ]
      | inr e ↦ rw e (inl (ground arith, refl, r))
    ]

-- The hardware is done with each of the packets from an index on.
abbrev pub AreDone : (ℕ → ℕ) → ℕ → List ℕ → Type 0
AreDone mem_ref c [] = Unit
AreDone mem_ref c (x ∷ xs) = (mem_ref c ≢ 255) × AreDone mem_ref ((c + 1) % 64) xs

-- The front of the queue that oct_tx_done_check destroys, all of it done, and the rest, whose first packet is not.
pub record Checked (t : TxDone) (queue : List ℕ) (r : Option (List ℕ × TxDone)) : Type 0 where
  pub freed : List ℕ
  pub rest : List ℕ
  pub after : TxDone
  pub answer : r ≡ some (freed, after)
  pub parts : queue ≡ freed ++ rest
  pub represents : Represents after rest
  pub done : AreDone t.mem_ref t.consumer freed
  pub waiting : (rest ≡ []) ⊎ (t.mem_ref after.consumer ≡ 255)

next : TxDone → TxDone
next t = record t { consumer = (t.consumer + 1) % 64; tx_entries = t.tx_entries - 1 }

next-Represents :
    (t : TxDone) (x : ℕ) (xs : List ℕ) → Represents t (x ∷ xs) → Represents (next t) xs
unfolding next
next-Represents t x xs r =
    let entries = r.entries in
    let bound = r.bound in
    let consumer = r.consumer in
    let producer = r.producer in
    record {
      entries = omega arith;
      bound = omega arith;
      consumer = omega arith;
      producer = omega arith;
      packets = r.packets.1;
    }

check_loop-Checked :
    (fuel : ℕ) (t : TxDone) (queue : List ℕ)
    → Represents t queue
    → length queue < fuel
    → Checked t queue (check_loop fuel t)
unfolding check_loop next
check_loop-Checked zero t queue r h = absurd (omega arith)
check_loop-Checked (suc fuel) t [] r h =
    let consumer = r.consumer in
    let producer = r.producer in
    let same : (t.consumer == t.producer) ≡ true = ground arith in
    record {
      freed = [];
      rest = [];
      after = t;
      answer = rw same refl;
      parts = refl;
      represents = r;
      done = _;
      waiting = inl refl;
    }
check_loop-Checked (suc fuel) t (x ∷ xs) r h =
    let bound = r.bound in
    let consumer = r.consumer in
    let producer = r.producer in
    let apart : t.consumer ≢ t.producer = λ same. absurd (omega arith) in
    let open_still : (t.consumer == t.producer) ≡ false = ground arith in
    elim (Bool-cases (t.mem_ref t.consumer == 255)) [
      | inl e ↦ record {
        freed = [];
        rest = x ∷ xs;
        after = t;
        answer = rw (open_still, e) refl;
        parts = refl;
        represents = r;
        done = _;
        waiting = inr (ground arith);
      }
      | inr e ↦
          let c = check_loop-Checked fuel (next t) xs (next-Represents t x xs r) (omega arith) in
          let front : t.mb t.consumer ≡ x = r.packets.0 in
          record {
            freed = x ∷ c.freed;
            rest = c.rest;
            after = c.after;
            answer = rw (open_still, e, c.answer, front) refl;
            parts = ap (λ l. x ∷ l) c.parts;
            represents = c.represents;
            done = ((λ d. absurd (ground arith)), c.done);
            waiting = c.waiting;
          }
    ]

pub oct_tx_done_check-Checked :
    (t : TxDone) (queue : List ℕ) → Represents t queue → Checked t queue (oct_tx_done_check t)
unfolding oct_tx_done_check
oct_tx_done_check-Checked t queue r = elim (Bool-cases (t.tx_entries == 0)) [
  | inl e ↦ rw e (empty queue e r.entries r)
  | inr e ↦ rw e (check_loop-Checked 64 t queue r r.bound)
]
  where
    empty :
        (q : List ℕ)
        → (t.tx_entries == 0) ≡ true
        → t.tx_entries ≡ length q
        → Represents t q
        → Checked t q (some ([], t))
    empty [] z h k = record {
      freed = [];
      rest = [];
      after = t;
      answer = refl;
      parts = refl;
      represents = k;
      done = _;
      waiting = inl refl;
    }
    empty (x ∷ xs) z h k = absurd (ground arith)

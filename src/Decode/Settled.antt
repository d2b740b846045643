-- ===== src/Decode/Settled.antt =====
-- The lists of events: a packet is given away by one event, or only counters are raised.
use sec_fw.Common.{
  ℕ, ◌+◌, ◌-◌, ◌%◌, ◌^◌, ◌≡◌, refl, inl, inr, Bool, Bool-cases, true, false, ◌==◌, if◌then◌else◌,
  List, [], ◌∷◌, ◌++◌, Option, none, some,
}
use sec_fw.Mbuf.{Mbuf}
use sec_fw.Decode.{
  Memory, Stat, decode_tcp_packet, decode_udp_packet, ipv4_get_hlen, ipv4_get_iplen,
}
use sec_fw.Decode.Layers.{
  Event, counted, cached, joined, to_flow, destroyed, Outcome, count_first, or_destroy, hand_over,
  decode_tcp, decode_udp, decode_transport, join_first, proto_tcp, proto_udp,
}

-- Counters only.
unfoldable pub only_counted : List Event → Bool
only_counted [] = true
only_counted (counted s ∷ es) = only_counted es
only_counted (cached m ∷ es) = false
only_counted (joined m ∷ es) = false
only_counted (to_flow m ∷ es) = false
only_counted (destroyed m ∷ es) = false

-- Counters, and one event that hands the packet on or frees it.
unfoldable pub passed_on : List Event → Bool
passed_on [] = false
passed_on (counted s ∷ es) = passed_on es
passed_on (cached m ∷ es) = false
passed_on (joined m ∷ es) = false
passed_on (to_flow m ∷ es) = only_counted es
passed_on (destroyed m ∷ es) = only_counted es

-- Counters, and one event that gives the packet away; if it is freed with the other fragments of its datagram,
-- then the whole packet is handed on or freed by one event after that.
unfoldable pub given_away : List Event → Bool
given_away [] = false
given_away (counted s ∷ es) = given_away es
given_away (cached m ∷ es) = only_counted es
given_away (joined m ∷ es) = passed_on es
given_away (to_flow m ∷ es) = only_counted es
given_away (destroyed m ∷ es) = only_counted es

-- With DECODE_OK the packet is given away, and with DECODE_DROP it is still the caller's.
abbrev pub settled : Outcome → Bool
settled o = if o.ok then given_away o.events else only_counted o.events

-- The same of a packet that is not a fragment.
abbrev settled_whole : Outcome → Bool
settled_whole o = if o.ok then passed_on o.events else only_counted o.events

passed_on-given_away : (es : List Event) → passed_on es ≡ true → given_away es ≡ true
unfolding passed_on given_away
passed_on-given_away [] h = absurd (cc h)
passed_on-given_away (counted s ∷ es) h = passed_on-given_away es h
passed_on-given_away (cached n ∷ es) h = absurd (cc h)
passed_on-given_away (joined n ∷ es) h = absurd (cc h)
passed_on-given_away (to_flow n ∷ es) h = h
passed_on-given_away (destroyed n ∷ es) h = h

only_counted-destroyed :
    (m : Mbuf) (es : List Event)
    → only_counted es ≡ true
    → passed_on (es ++ (destroyed m ∷ [])) ≡ true
unfolding only_counted passed_on
only_counted-destroyed m [] h = refl
only_counted-destroyed m (counted s ∷ es) h = only_counted-destroyed m es h
only_counted-destroyed m (cached n ∷ es) h = absurd (cc h)
only_counted-destroyed m (joined n ∷ es) h = absurd (cc h)
only_counted-destroyed m (to_flow n ∷ es) h = absurd (cc h)
only_counted-destroyed m (destroyed n ∷ es) h = absurd (cc h)

pub or_destroy-given_away :
    (o : Outcome) → settled o ≡ true → given_away (or_destroy o).events ≡ true
or_destroy-given_away o h = elim (Bool-cases o.ok) [
  | inl e ↦ rw e (rw e at h)
  | inr e ↦ rw e (passed_on-given_away _ (only_counted-destroyed o.mbuf o.events (rw e at h)))
]

or_destroy-passed_on :
    (o : Outcome)
    → settled_whole o ≡ true
    → ((or_destroy o).ok ≡ true) × (passed_on (or_destroy o).events ≡ true)
or_destroy-passed_on o h = elim (Bool-cases o.ok) [
  | inl e ↦ rw e (refl, rw e at h)
  | inr e ↦ rw e (refl, only_counted-destroyed o.mbuf o.events (rw e at h))
]

hand_over-settled : (stat : Stat) (r : Option Stat × Mbuf) → settled_whole (hand_over stat r) ≡ true
unfolding passed_on only_counted
hand_over-settled stat (none, m) = refl
hand_over-settled stat (some err, m) = refl

pub count_first-settled :
    (stat : Stat) (o : Outcome) → settled o ≡ true → settled (count_first stat o) ≡ true
unfolding given_away only_counted
count_first-settled stat o h = h

checked-passed_on :
    (s t : Stat) (r : Option Stat × Mbuf)
    → ((count_first s (or_destroy (hand_over t r))).ok ≡ true)
      × (passed_on (count_first s (or_destroy (hand_over t r))).events ≡ true)
unfolding passed_on
checked-passed_on s t r = or_destroy-passed_on (hand_over t r) (hand_over-settled t r)

-- A whole packet is handed on or freed by the transport layer.
pub decode_transport-passed_on :
    (mem : Memory) (n : Mbuf) (h : ℕ)
    → ((decode_transport mem n h).ok ≡ true) × (passed_on (decode_transport mem n h).events ≡ true)
unfolding decode_transport decode_tcp decode_udp passed_on only_counted
decode_transport-passed_on mem n h =
    let hlen = ipv4_get_hlen mem h in
    let len = (ipv4_get_iplen mem h + (2 ^ 16 - hlen)) % 2 ^ 16 in
    elim (Bool-cases (n.proto == proto_tcp)) [
      | inl e ↦ rw e (
          checked-passed_on Stat.ipv4_recv_ok Stat.tcp_recv_ok
            (decode_tcp_packet mem n (h + hlen) len))
      | inr e ↦ elim (Bool-cases (n.proto == proto_udp)) [
        | inl f ↦
            rw (e, f)
              (checked-passed_on Stat.ipv4_recv_ok Stat.udp_recv_ok
                (decode_udp_packet mem n (h + hlen) len))
        | inr f ↦ rw (e, f) (refl, refl)
      ]
    ]

pub decode_transport-settled :
    (mem : Memory) (n : Mbuf) (h : ℕ) → settled (decode_transport mem n h) ≡ true
decode_transport-settled mem n h =
    let (ok, events) = decode_transport-passed_on mem n h in rw ok (passed_on-given_away _ events)

pub join_first-settled :
    (mem : Memory) (m n : Mbuf) (h : ℕ) → settled (join_first m (decode_transport mem n h)) ≡ true
unfolding given_away passed_on
join_first-settled mem m n h = let (ok, events) = decode_transport-passed_on mem n h in rw ok events

-- Every packet that an event says is kept has the property.
abbrev pub CachedAre : (Mbuf → Type 0) → List Event → Type 0
CachedAre P [] = Unit
CachedAre P (counted s ∷ es) = CachedAre P es
CachedAre P (cached m ∷ es) = P m × CachedAre P es
CachedAre P (joined m ∷ es) = CachedAre P es
CachedAre P (to_flow m ∷ es) = CachedAre P es
CachedAre P (destroyed m ∷ es) = CachedAre P es

module _ (P : Mbuf → Type 0) where
  only_counted-CachedAre : (es : List Event) → only_counted es ≡ true → CachedAre P es
  unfolding only_counted
  only_counted-CachedAre [] h = _
  only_counted-CachedAre (counted s ∷ es) h = only_counted-CachedAre es h
  only_counted-CachedAre (cached m ∷ es) h = absurd (cc h)
  only_counted-CachedAre (joined m ∷ es) h = absurd (cc h)
  only_counted-CachedAre (to_flow m ∷ es) h = absurd (cc h)
  only_counted-CachedAre (destroyed m ∷ es) h = absurd (cc h)

  pub passed_on-CachedAre : (es : List Event) → passed_on es ≡ true → CachedAre P es
  unfolding passed_on
  passed_on-CachedAre [] h = absurd (cc h)
  passed_on-CachedAre (counted s ∷ es) h = passed_on-CachedAre es h
  passed_on-CachedAre (cached m ∷ es) h = absurd (cc h)
  passed_on-CachedAre (joined m ∷ es) h = absurd (cc h)
  passed_on-CachedAre (to_flow m ∷ es) h = only_counted-CachedAre es h
  passed_on-CachedAre (destroyed m ∷ es) h = only_counted-CachedAre es h

  append-CachedAre :
      (m : Mbuf) (es : List Event) → CachedAre P es → CachedAre P (es ++ (destroyed m ∷ []))
  append-CachedAre m [] h = _
  append-CachedAre m (counted s ∷ es) h = append-CachedAre m es h
  append-CachedAre m (cached n ∷ es) (p, h) = (p, append-CachedAre m es h)
  append-CachedAre m (joined n ∷ es) h = append-CachedAre m es h
  append-CachedAre m (to_flow n ∷ es) h = append-CachedAre m es h
  append-CachedAre m (destroyed n ∷ es) h = append-CachedAre m es h

  pub or_destroy-CachedAre :
      (o : Outcome) → CachedAre P o.events → CachedAre P (or_destroy o).events
  or_destroy-CachedAre o h = elim (Bool-cases o.ok) [
    | inl e ↦ rw e h
    | inr e ↦ rw e (append-CachedAre o.mbuf o.events h)
  ]

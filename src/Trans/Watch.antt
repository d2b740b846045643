-- ===== src/Trans/Watch.antt =====
-- The descriptors of the manager: `select` is asked for all that are open.
use sec_fw.Common.{
  ℕ, zero, suc, ◌+◌, ◌≤◌, ◌<◌, ◌≡◌, refl, sym, subst, inl, inr, true, Bool-cases, ◌&&◌, ◌==◌, ltb,
  if◌then◌else◌, List, [], ◌∷◌, arith, Bool, false, Option, none, some, Option-cases, ◌%◌, ◌^◌,
}
use sec_fw.Trans.{
  SockType, SockMap, tcp_server, tcp_client, udp_client, udp_server, Descriptors, unused,
  sock_map_init, write, status_of, add_fd, is_open, highest, del_fd, accept_client, sock_max,
  fd_setsize,
}

-- rfds has the open descriptors and no other, each is in the array, and none is above maxfd.
pub record IsWatched (d : Descriptors) : Type 0 where
  pub set : (fd : ℕ) → d.rfds fd ≡ is_open (d.sock_map fd).status
  pub bound : (fd : ℕ) → is_open (d.sock_map fd).status ≡ true → fd ≤ d.maxfd
  pub inside : (fd : ℕ) → is_open (d.sock_map fd).status ≡ true → fd < fd_setsize

pub sock_map_init-IsWatched : IsWatched sock_map_init
sock_map_init-IsWatched = record {
  set = λ fd. refl;
  bound = λ fd h. ground (arith, h);
  inside = λ fd h. ground (arith, h);
}

status_of-open : (t : SockType) → is_open (status_of t) ≡ true
status_of-open tcp_server = refl
status_of-open tcp_client = refl
status_of-open udp_client = refl
status_of-open udp_server = refl

-- What adding or removing one descriptor answers: descriptors that are watched, or a write behind rfds, for
-- one that has no bit there.
data Answers (fd : ℕ) : Option Descriptors → Type 0 where
  inside_rfds : (d : Descriptors) → ltb fd fd_setsize ≡ true → IsWatched d → Answers fd (some d)
  behind_rfds : ltb fd fd_setsize ≡ false → Answers fd none

add_fd-Answers :
    (t : SockType) (fd : ℕ) (d : Descriptors) → IsWatched d → Answers fd (add_fd t fd d)
unfolding add_fd
add_fd-Answers t fd d w = elim (Bool-cases (ltb fd fd_setsize)) [
  | inr h ↦ rw h (behind_rfds h)
  | inl h ↦ rw h (
      inside_rfds _ h (record {
        set = λ k. elim (Bool-cases (fd == k)) [
          | inl e ↦ rw e (sym (status_of-open t))
          | inr e ↦ rw e (w.set k)
        ];
        bound = λ k o. elim (Bool-cases (fd == k)) [
          | inl e ↦ ground arith
          | inr e ↦ ground (arith, w.bound k (rw e at o))
        ];
        inside = λ k o. elim (Bool-cases (fd == k)) [
          | inl e ↦ ground arith
          | inr e ↦ w.inside k (rw e at o)
        ];
      }))
]

-- The search of del_fd finds an index that no open descriptor from its start on is above.
highest-ge : (m : ℕ → SockMap) (n i best : ℕ) → best ≤ highest m n i best
unfolding highest
highest-ge m zero i best = omega arith
highest-ge m (suc n) i best =
    ground (arith, highest-ge m n (suc i) (if is_open (m i).status && ltb best i then i else best))

highest-bound :
    (m : ℕ → SockMap) (n i best fd : ℕ)
    → i ≤ fd
    → fd < i + n
    → is_open (m fd).status ≡ true
    → fd ≤ highest m n i best
unfolding highest
highest-bound m zero i best fd h k o = absurd (omega arith)
highest-bound m (suc n) i best fd h k o =
    let best' = if is_open (m i).status && ltb best i then i else best in
    elim (Bool-cases (i == fd)) [
      | inl e ↦
          let i_fd : i ≡ fd = ground arith in
          let here : is_open (m i).status ≡ true =
            subst (λ j. is_open (m j).status ≡ true) (sym i_fd) o in
          ground (arith, highest-ge m n (suc i) best', here)
      | inr e ↦ highest-bound m n (suc i) best' fd (ground arith) (omega arith) o
    ]

del_fd-Answers : (fd : ℕ) (d : Descriptors) → IsWatched d → Answers fd (del_fd fd d)
unfolding del_fd
del_fd-Answers fd d w =
    let inside : (k : ℕ) → is_open (write d.sock_map fd unused k).status ≡ true → k < fd_setsize =
      λ k o. elim (Bool-cases (fd == k)) [
        | inl e ↦ absurd (ground (arith, rw e at o))
        | inr e ↦ w.inside k (rw e at o)
      ] in
    elim (Bool-cases (ltb fd fd_setsize)) [
      | inr h ↦ rw h (behind_rfds h)
      | inl h ↦ rw h (
          inside_rfds _ h (record {
            set = λ k. elim (Bool-cases (fd == k)) [ inl e ↦ rw e refl | inr e ↦ rw e (w.set k) ];
            bound = λ k o. elim (Bool-cases (fd == d.maxfd)) [
              | inl top ↦ rw top (
                  highest-bound (write d.sock_map fd unused) sock_max 0 0 k (omega arith)
                    (omega (arith, inside k o)) o)
              | inr below ↦ rw below (elim (Bool-cases (fd == k)) [
                | inl e ↦ absurd (ground (arith, rw e at o))
                | inr e ↦ w.bound k (rw e at o)
              ])
            ];
            inside = inside;
          }))
    ]

accept_client-Answers : (fd : ℕ) (d : Descriptors) → IsWatched d → Answers fd (accept_client fd d)
unfolding accept_client
accept_client-Answers fd d w = elim (Option-cases (add_fd tcp_client fd d)) [
  | inl e ↦ rw (accept_client, e) (subst (Answers fd) e (add_fd-Answers tcp_client fd d w))
  | inr (d', e) ↦
      rw (accept_client, e) (counted d' (subst (Answers fd) e (add_fd-Answers tcp_client fd d w)))
]
  where
    counted :
        (d' : Descriptors)
        → Answers fd (some d')
        → Answers fd
            (some (record d' { g_client_connect_num = (d'.g_client_connect_num + 1) % 2 ^ 32 }))
    counted d' (inside_rfds _ h v) =
        inside_rfds _ h (record { set = v.set; bound = v.bound; inside = v.inside })

-- What happens to the descriptors of a running manager.
pub data Event : Type 0 where
  accepted closed : ℕ → Event

abbrev pub descriptor : Event → ℕ
descriptor (accepted fd) = fd
descriptor (closed fd) = fd

-- One event, and then the others: `none` is a write behind rfds.
abbrev pub step : Descriptors → Event → Option Descriptors
step d (accepted fd) = accept_client fd d
step d (closed fd) = del_fd fd d

unfoldable pub serve : Option Descriptors → List Event → Option Descriptors
serve none es = none
serve (some d) [] = some d
serve (some d) (e ∷ es) = serve (step d e) es

-- Every descriptor of the events has a bit in rfds.
abbrev pub all_fit : List Event → Bool
all_fit [] = true
all_fit (e ∷ es) = ltb (descriptor e) fd_setsize && all_fit es

-- How a run ends: with descriptors that are watched, if all have a bit in rfds, or else in a write behind it.
pub data Served (es : List Event) : Option Descriptors → Type 0 where
  watched : (d : Descriptors) → all_fit es ≡ true → IsWatched d → Served es (some d)
  written_behind : all_fit es ≡ false → Served es none

step-Answers : (d : Descriptors) (e : Event) → IsWatched d → Answers (descriptor e) (step d e)
step-Answers d (accepted fd) w = accept_client-Answers fd d w
step-Answers d (closed fd) w = del_fd-Answers fd d w

Served-cons :
    (e : Event) (es : List Event) (o : Option Descriptors)
    → ltb (descriptor e) fd_setsize ≡ true
    → Served es o
    → Served (e ∷ es) o
Served-cons e es _ h (watched d f w) = watched d (rw (h, f) refl) w
Served-cons e es _ h (written_behind f) = written_behind (rw (h, f) refl)

next-Served :
    (e : Event) (es : List Event) (o : Option Descriptors)
    → ((d : Descriptors) → IsWatched d → Served es (serve (some d) es))
    → Answers (descriptor e) o
    → Served (e ∷ es) (serve o es)
unfolding serve
next-Served e es _ rest (inside_rfds d h v) = Served-cons e es _ h (rest d v)
next-Served e es _ rest (behind_rfds h) = written_behind (rw h refl)

serve-Served : (d : Descriptors) (es : List Event) → IsWatched d → Served es (serve (some d) es)
unfolding serve
serve-Served d [] w = watched d refl w
serve-Served d (e ∷ es) w =
    next-Served e es (step d e) (λ d' v. serve-Served d' es v) (step-Answers d e w)

-- From server_init on, with its listening descriptor, which has a bit in rfds: after any clients came and
-- went, if all their descriptors are below FD_SETSIZE, then rfds has just the open descriptors and maxfd is
-- not below any of them; if one is not, then FD_SET or FD_CLR has written behind rfds.
pub server_init-Served :
    (listen_fd : ℕ) (es : List Event)
    → listen_fd < fd_setsize
    → Served es (serve (add_fd tcp_server listen_fd sock_map_init) es)
server_init-Served listen_fd es h =
    first (add_fd tcp_server listen_fd sock_map_init)
      (add_fd-Answers tcp_server listen_fd sock_map_init sock_map_init-IsWatched)
  where
    first : (o : Option Descriptors) → Answers listen_fd o → Served es (serve o es)
    first _ (inside_rfds d e w) = serve-Served d es w
    first _ (behind_rfds e) = absurd (ground arith)

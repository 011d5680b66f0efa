-- ===== src/Interface/Socket/Descriptors.antt =====
-- The file descriptors of a socket over its life.
use xbot_framework.Prelude.{
  ℕ, ◌≡◌, ◌≢◌, refl, ap, ◌∙◌, List, [], ◌∷◌, Option, none, some, Bool, true, false, true≢false, not,
  ◌&&◌, ◌==◌, ==_refl, ==_iff, Bool-cases, inl, inr, if-keeps,
}
use xbot_framework.Interface.Socket.{
  Socket, new_socket, remove, close_fd, is_started, or_close, and_then, opened_with, start_socket,
  set_multicast_if_address, set_bind_address, join_multicast, set_receive_timeout_micros,
  socket_transmit, destroy_socket,
}

-- What a program does with a socket: it starts one that is not started, and otherwise calls what it likes. The
-- descriptor of a successful `socket` is new, and `bind` fails for a descriptor of -1.
pub data SocketStep : Socket → Socket → Type 0 where
  start_new :
      {s : Socket} (n : ℕ) (binds timeout_set : Bool)
      → s.fd ≡ none
      → SocketStep s (start_socket (some n) binds timeout_set s).0
  start_failed :
      {s : Socket} (timeout_set : Bool)
      → s.fd ≡ none
      → SocketStep s (start_socket none false timeout_set s).0
  set_interface :
      {s : Socket} (address : List ℕ) → SocketStep s (set_multicast_if_address address s).0
  set_bind : {s : Socket} (address : List ℕ) → SocketStep s (set_bind_address address s).0
  join :
      {s : Socket} (interface_set member_added : Bool)
      → SocketStep s (join_multicast interface_set member_added s).0
  set_timeout :
      {s : Socket} (timeout_set : Bool) → SocketStep s (set_receive_timeout_micros timeout_set s).0
  transmit :
      {s : Socket} (ip port : ℕ) (bytes : List ℕ) → SocketStep s (socket_transmit ip port bytes s).0

pub data Lives (s : Socket) : Socket → Type 0 where
  fresh : Lives s s
  then_step : {t u : Socket} → Lives s t → SocketStep t u → Lives s u

-- Exactly the descriptor in use is open.
abbrev pub HoldsOne : Socket → Type 0
HoldsOne s = s.opened ≡ opened_with s.fd []

remove_self : (n : ℕ) → remove n (n ∷ []) ≡ []
unfolding remove
remove_self n = rw (==_refl n) refl

closed_list :
    (o : Option ℕ) (opened : List ℕ)
    → opened ≡ opened_with o []
    → (elim o [ none ↦ opened | some n ↦ remove n opened ]) ≡ []
closed_list none opened h = h
closed_list (some n) opened h = ap (remove n) h ∙ remove_self n

closed_opened : (s : Socket) → HoldsOne s → (close_fd s).opened ≡ []
unfolding close_fd
closed_opened s h = closed_list s.fd s.opened h

close-HoldsOne : (s : Socket) → HoldsOne s → HoldsOne (close_fd s)
unfolding close_fd
close-HoldsOne s h = closed_list s.fd s.opened h

or_close-HoldsOne : (b : Bool) (s : Socket) → HoldsOne s → HoldsOne (or_close b s).0
or_close-HoldsOne true s h = h
or_close-HoldsOne false s h = close-HoldsOne s h

and_then-HoldsOne :
    (r : Socket × Bool) (next : Socket → Socket × Bool)
    → HoldsOne r.0
    → ((s : Socket) → HoldsOne s → HoldsOne (next s).0)
    → HoldsOne (and_then r next).0
and_then-HoldsOne (s, true) next h keep = keep s h
and_then-HoldsOne (s, false) next h keep = h

start-HoldsOne :
    (socket_result : Option ℕ) (binds timeout_set : Bool) (s : Socket)
    → s.fd ≡ none
    → HoldsOne s
    → HoldsOne (start_socket socket_result binds timeout_set s).0
unfolding start_socket
start-HoldsOne socket_result binds timeout_set s off h =
    and_then-HoldsOne _ (or_close timeout_set)
      (or_close-HoldsOne binds _
        (ap (opened_with socket_result) (h ∙ ap (λ (o : Option ℕ). opened_with o []) off)))
      (or_close-HoldsOne timeout_set)

SocketStep-HoldsOne : {s t : Socket} → SocketStep s t → HoldsOne s → HoldsOne t
unfolding set_multicast_if_address set_bind_address join_multicast set_receive_timeout_micros
    socket_transmit
SocketStep-HoldsOne (start_new n binds timeout_set off) h =
    start-HoldsOne (some n) binds timeout_set _ off h
SocketStep-HoldsOne (start_failed timeout_set off) h = start-HoldsOne none false timeout_set _ off h
SocketStep-HoldsOne {s} (set_interface address) h =
    if-keeps (λ (r : Socket × Bool). HoldsOne r.0) (is_started s) _ _ (λ _. h) (λ _. h)
SocketStep-HoldsOne {s} (set_bind address) h =
    if-keeps (λ (r : Socket × Bool). HoldsOne r.0) (is_started s) _ _ (λ _. h) (λ _. h)
SocketStep-HoldsOne {s} (join interface_set member_added) h =
    if-keeps (λ (r : Socket × Bool). HoldsOne r.0) (not (is_started s)) _ _ (λ _. h)
      (λ _.
        and_then-HoldsOne _ (or_close member_added) (or_close-HoldsOne interface_set s h)
          (or_close-HoldsOne member_added))
SocketStep-HoldsOne {s} (set_timeout timeout_set) h =
    or_close-HoldsOne (is_started s && timeout_set) s h
SocketStep-HoldsOne {s} (transmit ip port bytes) h =
    if-keeps (λ (r : Socket × Bool). HoldsOne r.0) (not (is_started s)) _ _ (λ _. h) (λ _. h)

Lives-HoldsOne : {s t : Socket} → Lives s t → HoldsOne s → HoldsOne t
Lives-HoldsOne fresh h = h
Lives-HoldsOne (then_step l st) h = SocketStep-HoldsOne st (Lives-HoldsOne l h)

-- A socket that is only started while it is not, whatever else is called on it, in whatever order and with whatever
-- answers of the system: at any time exactly the descriptor in use is open, and none is after the destructor.
pub Lives-closed :
    (bind_address : List ℕ) (bind_port : ℕ) {s : Socket}
    → Lives (new_socket bind_address bind_port) s
    → HoldsOne s × ((destroy_socket s).opened ≡ [])
unfolding new_socket destroy_socket
Lives-closed bind_address bind_port {s} l =
    let h = Lives-HoldsOne l refl in
    (
      h,
      if-keeps (λ (t : Socket). t.opened ≡ []) (is_started s) (close_fd s) s
          (λ _. closed_opened s h) (λ off. h ∙ not_started s.fd off),
    )
  where
    not_started :
        (o : Option ℕ) → (elim o [ none ↦ false | some n ↦ true ]) ≡ false → opened_with o [] ≡ []
    not_started none e = refl
    not_started (some n) e = absurd (true≢false e)

remove_other : (n m : ℕ) → n ≢ m → remove m (n ∷ []) ≡ n ∷ []
unfolding remove
remove_other n m other = elim (Bool-cases (n == m)) [
  | inl e ↦ absurd (other ((==_iff n m).0 e))
  | inr e ↦ rw e refl
]

-- Start of a socket that is started already, when the system gives it another descriptor: the first one stays open,
-- even after the destructor.
pub start_socket-leaks :
    (n m : ℕ) (s : Socket)
    → s.fd ≡ some n
    → HoldsOne s
    → n ≢ m
    → let (s', started) = start_socket (some m) true true s in
      (started ≡ true) × (s'.fd ≡ some m) × ((destroy_socket s').opened ≡ n ∷ [])
unfolding start_socket destroy_socket close_fd remove
start_socket-leaks n m s on h other = (
  refl,
  refl,
  rw (==_refl m)
      (ap (remove m) (h ∙ ap (λ (o : Option ℕ). opened_with o []) on) ∙ remove_other n m other),
)

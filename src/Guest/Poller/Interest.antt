-- ===== src/Guest/Poller/Interest.antt =====
-- The registrations of the poller (scheduler/epoll.rs) and the kernel's interest list.
use firecracker_lab.Prelude.{
  ℕ, Bool, true, false, Option, none, some, List, [], ◌∷◌, ◌==◌, nat_eq, ◌≡◌, refl, ap, sym, ◌∙◌,
  if◌then◌else◌, arith, Option-cases, ℕ_discrete, inl, inr,
}
use firecracker_lab.Guest.Machine.{
  SignalSource, signal, vsock_listen, pty_vsock_listen, timer, Errno, busy, exist, noent, other,
  epoll_add, epoll_modify, epoll_delete, Asked, Kernel, Machine, next, answered, sys, sys_answer,
  failing,
}
use firecracker_lab.Guest.Poller.{
  as_u64, from_u64, set_tag, retain_others, registering, or_modify, add_epoll, unless_noent,
  remove_epoll,
}

-- The data with which the kernel watches a descriptor, after what was asked of it.
abbrev pub interest : Asked → ℕ → Option ℕ
interest [] fd = none
interest ((epoll_add f d, none) ∷ l) fd =
    let before = interest l fd in if f == fd then some d else before
interest ((epoll_modify f d, none) ∷ l) fd =
    let before = interest l fd in if f == fd then some d else before
interest ((epoll_delete f, none) ∷ l) fd =
    let before = interest l fd in if f == fd then none else before
interest (_ ∷ l) fd = interest l fd

-- The data of the first registration of a descriptor.
abbrev pub registration : List (SignalSource × ℕ) → ℕ → Option ℕ
registration [] fd = none
registration ((tag, raw) ∷ l) fd =
    let rest = registration l fd in if raw == fd then some (as_u64 tag) else rest

-- The poller and the kernel agree on every descriptor.
abbrev pub Agrees : Machine → Type 0
Agrees m = (fd : ℕ) → registration m.registered fd ≡ interest m.asked fd

registration-set_tag :
    (tag : SignalSource) (f fd : ℕ) (l : List (SignalSource × ℕ))
    → registration (set_tag tag f l) fd ≡ (if f == fd then some (as_u64 tag) else registration l fd)
unfolding set_tag
registration-set_tag tag f fd [] = refl
registration-set_tag tag f fd ((t, raw) ∷ l) = ground (arith, registration-set_tag tag f fd l)

registration-retain_others :
    (f fd : ℕ) (l : List (SignalSource × ℕ))
    → registration (retain_others f l) fd ≡ (if f == fd then none else registration l fd)
unfolding retain_others
registration-retain_others f fd [] = ground arith
registration-retain_others f fd ((t, raw) ∷ l) = ground (arith, registration-retain_others f fd l)

-- ENOENT is the answer to a delete of a descriptor that is not in the interest list.
abbrev pub IsEpoll : Kernel → Type 0
IsEpoll kernel =
    (l : Asked) (fd : ℕ) → kernel.answer l (epoll_delete fd) ≡ some noent → interest l fd ≡ none

-- What a list of answers tells when one more is in front.
module _ (kernel : Kernel) where
  added :
      (tag : SignalSource) (fd : ℕ) (m : Machine) (answer : Option Errno)
      → Agrees m
      → Agrees
          (next
            (λ _. registering (set_tag tag fd))
            (or_modify kernel tag fd answer
              (record m { asked = (epoll_add fd (as_u64 tag), answer) ∷ m.asked }))).1
  unfolding or_modify registering sys failing
  added tag fd m none h k = rw (registration-set_tag, h k) refl
  added tag fd m (some exist) h k =
      elim (Option-cases (
        kernel.answer ((epoll_add fd (as_u64 tag), some exist) ∷ m.asked)
          (epoll_modify fd (as_u64 tag)))) [
            | inl ok' ↦ rw ok' (rw (registration-set_tag, h k) refl)
            | inr (e, failed) ↦ rw failed (h k)
          ]
  added tag fd m (some busy) h k = h k
  added tag fd m (some noent) h k = h k
  added tag fd m (some (other n)) h k = h k

  -- Whatever the kernel answers, add_epoll keeps the registrations and the interest list alike.
  pub add_epoll-Agrees :
      (tag : SignalSource) (fd : ℕ) (m : Machine) → Agrees m → Agrees (add_epoll kernel tag fd m).1
  unfolding add_epoll sys_answer
  add_epoll-Agrees tag fd m h = added tag fd m (kernel.answer m.asked (epoll_add fd (as_u64 tag))) h

  removed :
      (fd : ℕ) (m : Machine) (answer : Option Errno)
      → (answer ≡ some noent → interest m.asked fd ≡ none)
      → Agrees m
      → Agrees
          (next
            (λ _. registering (retain_others fd))
            (
              answered (unless_noent kernel) answer,
              record m { asked = (epoll_delete fd, answer) ∷ m.asked },
            )).1
  unfolding registering unless_noent failing
  removed fd m none d h k = rw (registration-retain_others, h k) refl
  removed fd m (some noent) d h k = rw (registration-retain_others, h k) (ground (arith, d refl))
  removed fd m (some busy) d h k = h k
  removed fd m (some exist) d h k = h k
  removed fd m (some (other n)) d h k = h k

  pub remove_epoll-Agrees :
      (fd : ℕ) (m : Machine) → IsEpoll kernel → Agrees m → Agrees (remove_epoll kernel fd m).1
  unfolding remove_epoll sys
  remove_epoll-Agrees fd m e h =
      removed fd m (kernel.answer m.asked (epoll_delete fd)) (e m.asked fd) h

pub from_u64-as_u64 : (s : SignalSource) → from_u64 (as_u64 s) ≡ some s
unfolding from_u64 as_u64 ℕ_discrete
from_u64-as_u64 signal = refl
from_u64-as_u64 vsock_listen = refl
from_u64-as_u64 pty_vsock_listen = refl
from_u64-as_u64 timer = refl

-- From a poller without registrations, adding and removing descriptors in any order.
pub data Polls (kernel : Kernel) : Machine → Type 0 where
  idle :
      (m : Machine) → m.registered ≡ [] → ((fd : ℕ) → interest m.asked fd ≡ none) → Polls kernel m
  add :
      {m : Machine} (tag : SignalSource) (fd : ℕ)
      → Polls kernel m
      → Polls kernel (add_epoll kernel tag fd m).1
  remove : {m : Machine} (fd : ℕ) → Polls kernel m → Polls kernel (remove_epoll kernel fd m).1

Polls-Agrees : {kernel : Kernel} {m : Machine} → IsEpoll kernel → Polls kernel m → Agrees m
Polls-Agrees e (idle m empty quiet) = λ fd. rw empty (sym (quiet fd))
Polls-Agrees {kernel} e (add {m} tag fd p) = add_epoll-Agrees kernel tag fd m (Polls-Agrees e p)
Polls-Agrees {kernel} e (remove {m} fd p) = remove_epoll-Agrees kernel fd m e (Polls-Agrees e p)

-- The tag under which a descriptor is registered.
abbrev pub tag_of : List (SignalSource × ℕ) → ℕ → Option SignalSource
tag_of [] fd = none
tag_of ((tag, raw) ∷ l) fd = let rest = tag_of l fd in if raw == fd then some tag else rest

-- What get_events gives for the events of a descriptor that the kernel watches.
abbrev pub source_of : Option ℕ → Option SignalSource
source_of none = none
source_of (some data') = from_u64 data'

source_of-registration :
    (l : List (SignalSource × ℕ)) (fd : ℕ) → source_of (registration l fd) ≡ tag_of l fd
source_of-registration [] fd = refl
source_of-registration ((tag, raw) ∷ l) fd =
    ground (arith, from_u64-as_u64 tag, source_of-registration l fd)

abbrev pub is_some : {A : Type 0} → Option A → Bool
is_some none = false
is_some (some a) = true

registration-is_some :
    (l : List (SignalSource × ℕ)) (fd : ℕ) → is_some (registration l fd) ≡ is_some (tag_of l fd)
registration-is_some [] fd = refl
registration-is_some ((tag, raw) ∷ l) fd = ground (arith, registration-is_some l fd)

-- After any sequence of add_epoll and remove_epoll, whatever the kernel refuses, an event of a
-- descriptor is given as the source under which the descriptor is registered, and the kernel watches
-- a descriptor exactly if it is registered.
pub Polls-source_of :
    {kernel : Kernel} {m : Machine} (fd : ℕ)
    → IsEpoll kernel
    → Polls kernel m
    → (source_of (interest m.asked fd) ≡ tag_of m.registered fd)
      × (is_some (interest m.asked fd) ≡ is_some (tag_of m.registered fd))
Polls-source_of {m} fd e p = (
  ap source_of (sym (Polls-Agrees e p fd)) ∙ source_of-registration m.registered fd,
  ap is_some (sym (Polls-Agrees e p fd)) ∙ registration-is_some m.registered fd,
)

-- ===== src/Delta/Newest.antt =====
-- custom_components/carnet_scolaire/delta.py: how many messages a thread fires, and which.
use ha_pronote_ng.Prelude.{
  subst, ℕ, ◌-◌, zero, suc, min, ◌≡◌, refl, sym, ap, ◌∙◌, inl, inr, false, Option, none, some, List,
  [], ◌∷◌, ◌++◌, map, All, arith, Bool-cases, if◌then◌else◌, length, ◌==◌,
}
use mathlib.Core.List.Perm as Perms
use mathlib.Core.List.{Perm}
use ha_pronote_ng.Models.School.{Message, Discussion}
use ha_pronote_ng.Models.Lifetime.{drop, last_ones}
use ha_pronote_ng.Delta.Context.{message_event}
use ha_pronote_ng.Delta.Threads.{
  new_thread_cap, earlier, insert_message, by_created, message_events, thread_events,
}

-- No message comes before one that is earlier.
abbrev pub Ordered : List Message → Type 0
Ordered [] = Unit
Ordered (m ∷ ms) = All (λ (n : Message). earlier n.created m.created ≡ false) ms × Ordered ms

insert_message-All :
    (P : Message → Type 0) (m : Message) (ms : List Message)
    → P m
    → All P ms
    → All P (insert_message m ms)
unfolding insert_message
insert_message-All P m [] p a = (p, tt)
insert_message-All P m (n ∷ ms) p (q, a) = elim (Bool-cases (earlier n.created m.created)) [
  | inl e ↦ rw e (q, insert_message-All P m ms p a)
  | inr e ↦ rw e (p, (q, a))
]

earlier_trans :
    (m n o : Message)
    → earlier n.created m.created ≡ false
    → earlier o.created n.created ≡ false
    → earlier o.created m.created ≡ false
earlier_trans m n o h k = ground arith

later-All :
    (m n : Message) (ms : List Message)
    → earlier n.created m.created ≡ false
    → All (λ (o : Message). earlier o.created n.created ≡ false) ms
    → All (λ (o : Message). earlier o.created m.created ≡ false) ms
later-All m n [] h a = tt
later-All m n (o ∷ ms) h (k, a) = (earlier_trans m n o h k, later-All m n ms h a)

insert_message-Ordered :
    (m : Message) (ms : List Message) → Ordered ms → Ordered (insert_message m ms)
unfolding insert_message
insert_message-Ordered m [] s = (tt, tt)
insert_message-Ordered m (n ∷ ms) (a, s) = elim (Bool-cases (earlier n.created m.created)) [
  | inl e ↦ rw e (insert_message-All _ m ms (ground arith) a, insert_message-Ordered m ms s)
  | inr e ↦ rw e ((e, later-All m n ms e a), (a, s))
]

by_created-Ordered : (ms : List Message) → Ordered (by_created ms)
unfolding by_created
by_created-Ordered [] = tt
by_created-Ordered (m ∷ ms) = insert_message-Ordered m (by_created ms) (by_created-Ordered ms)

length-insert_message :
    (m : Message) (ms : List Message) → length (insert_message m ms) ≡ suc (length ms)
unfolding insert_message
length-insert_message m [] = refl
length-insert_message m (n ∷ ms) = ground (arith, length-insert_message m ms)

length-by_created : (ms : List Message) → length (by_created ms) ≡ length ms
unfolding by_created
length-by_created [] = refl
length-by_created (m ∷ ms) = length-insert_message m (by_created ms) ∙ ap suc (length-by_created ms)

length-drop : {A : Type 0} (n : ℕ) (xs : List A) → length (drop n xs) ≡ length xs - n
length-drop zero xs = omega arith
length-drop (suc n) [] = omega arith
length-drop (suc n) (x ∷ xs) = omega (arith, length-drop n xs)

length-map : {A B : Type 0} (f : A → B) (xs : List A) → length (map f xs) ≡ length xs
length-map f [] = refl
length-map f (x ∷ xs) = ap suc (length-map f xs)

expected : ℕ → ℕ → ℕ
expected delta read = if read == 0 then 1 else if delta == 0 then read else min delta read

length-message_events :
    (t : Discussion) (b : ℕ) (ms : List Message)
    → t.messages ≡ ms
    → length (message_events t b) ≡ expected (t.unread - b) (length ms)
unfolding message_events expected
length-message_events t b [] e = rw e refl
length-message_events t b (m ∷ ms) e =
    let sorted = by_created (m ∷ ms) in
    rw e (
      length-map _ (last_ones (t.unread - b) sorted)
      ∙ length-drop (if (t.unread - b) == 0 then 0 else length sorted - (t.unread - b)) sorted
      ∙ grind (arith, length-by_created (m ∷ ms)))

-- How many messages have arrived in a thread, seen before or not.
abbrev pub arrived : Discussion → Option ℕ → ℕ
arrived t none = min t.unread new_thread_cap
arrived t (some before) = t.unread - before

-- A thread fires one event for each message that has arrived, as far as the gateway read its messages;
-- a thread that it did not read fires one. Of a thread seen for the first time three count as arrived.
thread_events-length :
    (t : Discussion) (o : Option ℕ)
    → length (thread_events t o) ≡ (
        if arrived t o == 0
        then 0
        else if length t.messages == 0
        then 1
        else min (arrived t o) (length t.messages))
unfolding thread_events expected
thread_events-length t none =
    ground (arith, length-message_events t (t.unread - new_thread_cap) t.messages refl)
thread_events-length t (some before) =
    ground (arith, length-message_events t before t.messages refl)

-- What stands before `drop n xs`.
before_drop : {A : Type 0} → ℕ → List A → List A
before_drop zero xs = []
before_drop (suc n) [] = []
before_drop (suc n) (x ∷ xs) = x ∷ before_drop n xs

before_drop-append : {A : Type 0} (n : ℕ) (xs : List A) → before_drop n xs ++ drop n xs ≡ xs
unfolding before_drop
before_drop-append zero xs = refl
before_drop-append (suc n) [] = refl
before_drop-append (suc n) (x ∷ xs) = ap (λ (ys : List _). x ∷ ys) (before_drop-append n xs)

drop-All : {A : Type 0} (P : A → Type 0) (n : ℕ) (xs : List A) → All P xs → All P (drop n xs)
drop-All P zero xs a = a
drop-All P (suc n) [] a = tt
drop-All P (suc n) (x ∷ xs) (p, a) = drop-All P n xs a

before_drop-Ordered :
    (n : ℕ) (ms : List Message)
    → Ordered ms
    → All
        (λ (o : Message). All (λ (n : Message). earlier n.created o.created ≡ false) (drop n ms))
        (before_drop n ms)
unfolding before_drop
before_drop-Ordered zero ms s = tt
before_drop-Ordered (suc n) [] s = tt
before_drop-Ordered (suc n) (m ∷ ms) (a, s) = (drop-All _ n ms a, before_drop-Ordered n ms s)

insert_message-Perm : (m : Message) (ms : List Message) → Perm (insert_message m ms) (m ∷ ms)
unfolding insert_message
insert_message-Perm m [] = Perms.refl (m ∷ [])
insert_message-Perm m (n ∷ ms) = elim (Bool-cases (earlier n.created m.created)) [
  | inl e ↦ rw e (Perms.trans (Perms.cons n (insert_message-Perm m ms)) (Perms.swap m n ms))
  | inr e ↦ rw e (Perms.refl (m ∷ n ∷ ms))
]

by_created-Perm : (ms : List Message) → Perm (by_created ms) ms
unfolding by_created
by_created-Perm [] = Perms.refl []
by_created-Perm (m ∷ ms) =
    Perms.trans (insert_message-Perm m (by_created ms)) (Perms.cons m (by_created-Perm ms))

-- Where the gateway read the messages of a thread, the events are of the messages that come last in the
-- order of creation: none of the others was created after one of them.
pub message_events-newest :
    (t : Discussion) (b : ℕ) (m : Message) (ms : List Message)
    → t.messages ≡ m ∷ ms
    → (older : List Message) × (newest : List Message) × Perm (older ++ newest) (m ∷ ms)
      × (message_events t b
          ≡ map (λ (n : Message). message_event t n.author (some n.created)) newest)
      × All
          (λ (o : Message). All (λ (n : Message). earlier n.created o.created ≡ false) newest)
          older
unfolding message_events
message_events-newest t b m ms e =
    let sorted = by_created (m ∷ ms) in
    let k = if (t.unread - b) == 0 then 0 else length sorted - (t.unread - b) in
    (
      before_drop k sorted,
      drop k sorted,
      subst (λ (xs : List Message). Perm xs (m ∷ ms)) (sym (before_drop-append k sorted))
          (by_created-Perm (m ∷ ms)),
      rw e refl,
      before_drop-Ordered k sorted (by_created-Ordered (m ∷ ms)),
    )

-- ===== src/Discovery/Status.antt =====
-- `send_status_event` of src/node.rs: an event goes to every status channel that is open and has room,
-- and the channels that are closed are dropped from the list by their indices.
use ros2_client.Base.{
  ℕ, zero, suc, Bool, true, false, List, [], ◌∷◌, ◌++◌, map, if◌then◌else◌, ltb, length, ◌≡◌, refl,
  arith, sym, ◌∙◌, ap, inl, inr, Bool-cases,
}

-- A bounded channel of `capacity` events, seen from its sender.
pub record Sender (Event : Type 0) : Type 0 where
  pub closed : Bool
  pub queue : List Event

abbrev pub capacity : ℕ
capacity = 8

-- `try_send`: nothing happens to a channel that is closed or full.
abbrev pub try_send : {Event : Type 0} → Event → Sender Event → Sender Event
try_send e s =
    if s.closed
    then s
    else if ltb (length s.queue) capacity
    then record s { queue = s.queue ++ e ∷ [] }
    else s

-- `Vec::swap_remove`: the last element takes the place of the one that is removed.
abbrev last : {A : Type 0} → A → List A → A
last x [] = x
last x (y ∷ ys) = last y ys

abbrev init : {A : Type 0} → A → List A → List A
init x [] = []
init x (y ∷ ys) = x ∷ init y ys

unfoldable pub swap_remove : {A : Type 0} → ℕ → List A → List A
swap_remove i [] = []
swap_remove zero (x ∷ []) = []
swap_remove zero (x ∷ y ∷ ys) = last y ys ∷ init y ys
swap_remove (suc i) (x ∷ xs) = x ∷ swap_remove i xs

-- The indices of the channels that are closed, counted from `i`.
abbrev pub closed_from : {Event : Type 0} → ℕ → List (Sender Event) → List ℕ
closed_from i [] = []
closed_from i (s ∷ ss) = if s.closed then i ∷ closed_from (suc i) ss else closed_from (suc i) ss

-- The loop over `closed.iter().rev()`: the last index first.
abbrev pub remove_all : {A : Type 0} → List ℕ → List A → List A
remove_all [] xs = xs
remove_all (c ∷ cs) xs = swap_remove c (remove_all cs xs)

unfoldable pub send_status_event :
    {Event : Type 0} → Event → List (Sender Event) → List (Sender Event)
send_status_event e senders = remove_all (closed_from 0 senders) (map (try_send e) senders)

-- How often a list has an element with a property.
abbrev pub count : {A : Type 0} → (A → Bool) → List A → ℕ
count p [] = 0
count p (x ∷ xs) = if p x then suc (count p xs) else count p xs

count-init :
    {A : Type 0} (p : A → Bool) (y : A) (ys : List A)
    → count p (last y ys ∷ init y ys) ≡ count p (y ∷ ys)
count-init p y [] = refl
count-init p y (z ∷ zs) = ground (arith, count-init p z zs)

-- The channels that are open.
abbrev pub open_ones : {Event : Type 0} → List (Sender Event) → List (Sender Event)
open_ones [] = []
open_ones (s ∷ ss) = if s.closed then open_ones ss else s ∷ open_ones ss

closed-suc :
    {Event A : Type 0} (i : ℕ) (ss : List (Sender Event)) (x : A) (xs : List A)
    → remove_all (closed_from (suc i) ss) (x ∷ xs) ≡ x ∷ remove_all (closed_from i ss) xs
unfolding swap_remove
closed-suc i [] x xs = refl
closed-suc i (s ∷ ss) x xs = elim (Bool-cases s.closed) [
  | inl h ↦ rw h (ap (swap_remove (suc i)) (closed-suc (suc i) ss x xs))
  | inr h ↦ rw h (closed-suc (suc i) ss x xs)
]

is_closed :
    {Event : Type 0} (i : ℕ) (s : Sender Event) (ss : List (Sender Event))
    → s.closed ≡ true
    → (closed_from i (s ∷ ss) ≡ i ∷ closed_from (suc i) ss) × (open_ones (s ∷ ss) ≡ open_ones ss)
is_closed i s ss h = (
  ap (λ b. if b then i ∷ closed_from (suc i) ss else closed_from (suc i) ss) h,
  ap (λ b. if b then open_ones ss else s ∷ open_ones ss) h,
)

is_open :
    {Event : Type 0} (i : ℕ) (s : Sender Event) (ss : List (Sender Event))
    → s.closed ≡ false
    → (closed_from i (s ∷ ss) ≡ closed_from (suc i) ss) × (open_ones (s ∷ ss) ≡ s ∷ open_ones ss)
is_open i s ss h = (
  ap (λ b. if b then i ∷ closed_from (suc i) ss else closed_from (suc i) ss) h,
  ap (λ b. if b then open_ones ss else s ∷ open_ones ss) h,
)

-- Removing the first of a list leaves as many of the rest.
count-swap_remove :
    {A : Type 0} (p : A → Bool) (x : A) (xs : List A)
    → count p (swap_remove 0 (x ∷ xs)) ≡ count p xs
unfolding swap_remove
count-swap_remove p x [] = refl
count-swap_remove p x (y ∷ ys) = count-init p y ys

-- After an event is sent, the list has the open channels and no other, each as often as it was there,
-- with the event behind what it had if there was room.
pub count-send_status_event :
    {Event : Type 0} (e : Event) (p : Sender Event → Bool) (senders : List (Sender Event))
    → count p (send_status_event e senders) ≡ count p (map (try_send e) (open_ones senders))
unfolding send_status_event
count-send_status_event e p [] = refl
count-send_status_event e p (s ∷ ss) =
    let ready = map (try_send e) ss in
    let gone = closed-suc 0 ss (try_send e s) ready in
    elim (Bool-cases s.closed) [
      | inl h ↦
          let (here, left) = is_closed 0 s ss h in
          ap (λ l. count p (remove_all l (try_send e s ∷ ready))) here
          ∙ (ap (λ l. count p (swap_remove 0 l)) gone
              ∙ (count-swap_remove p (try_send e s) (send_status_event e ss)
                  ∙ (count-send_status_event e p ss
                      ∙ ap (λ l. count p (map (try_send e) l)) (sym left))))
      | inr h ↦
          let (here, left) = is_open 0 s ss h in
          ap (λ l. count p (remove_all l (try_send e s ∷ ready))) here
          ∙ (ap (count p) gone
              ∙ (ap (λ n. if p (try_send e s) then suc n else n) (count-send_status_event e p ss)
                  ∙ ap (λ l. count p (map (try_send e) l)) (sym left)))
    ]

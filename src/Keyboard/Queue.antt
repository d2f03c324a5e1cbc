-- ===== src/Keyboard/Queue.antt =====
-- The ring of key events of src/drivers/keyboard.c, read as a queue.
use mathlib.Core.List.{append-nil}
use dvivon_os.KeyCodes.{kc_caps, kc_ralt, kc_lalt, kc_rctrl, kc_lctrl, kc_rshift, kc_lshift, Key}
use dvivon_os.Base.{
  true, ◌∙◌, Bool, sym, ==_iff, ◌≢◌, refl, ap, ==_of_ne, false, ==_refl, ◌||◌, arith, if◌then◌else◌,
  inr, inl, zero, ◌++◌, leb, some, suc, ◌==◌, Bool-cases, [], none, not, ◌%◌, ◌∷◌, ◌≡◌, Option, ◌+◌,
  ◌<◌, List, ℕ, ◌-◌,
}
use dvivon_os.Keyboard.{
  callback, push, apply_modifier, key_event, is_none, decode, KeyEvent, keyboard_read, Keyboard,
}
use mathlib.Core.Bool.{false≢true}
use dvivon_os.Base.Buf.{update}

-- The events from an index on, along the ring.
window : (ℕ → KeyEvent) → ℕ → ℕ → List KeyEvent
window f i zero = []
window f i (suc n) = f i ∷ window f ((i + 1) % 256) n

-- How many events wait, and which, the oldest first.
abbrev pub unread : Keyboard → ℕ
unread s = (s.head + 256 - s.tail) % 256

pub pending : Keyboard → List KeyEvent
pending s = window s.buffer s.tail (unread s)

pub record IsValid (s : Keyboard) : Type 0 where
  pub head_bound : s.head < 256
  pub tail_bound : s.tail < 256

-- The event, if any, that a byte gives.
abbrev pub events : ℕ → Keyboard → List KeyEvent
events sc s =
    let pressed = not (leb 128 sc) in
    let kc = decode sc s in
    if (sc == 0xe0) || is_none kc
    then []
    else key_event kc pressed (apply_modifier kc pressed s) ∷ []

window-push :
    (f : ℕ → KeyEvent) (e : KeyEvent) (h i n : ℕ)
    → i < 256
    → n < 255
    → h ≡ (i + n) % 256
    → window (update f h e) i (suc n) ≡ window f i n ++ e ∷ []
unfolding window
window-push f e h i zero hi hn eq = let same : h ≡ i = omega arith in rw (same, ==_refl i) refl
window-push f e h i (suc n) hi hn eq =
    let apart : (i == h) ≡ false = ==_of_ne i h (λ same. omega arith) in
    rw apart (
      ap (◌∷◌ (f i))
        (window-push f e h ((i + 1) % 256) n (omega arith) (omega arith) (omega arith)))

-- Reading, on the queue.
abbrev pub front : List KeyEvent → Option KeyEvent
front [] = none
front (e ∷ es) = some e

abbrev pub rest : List KeyEvent → List KeyEvent
rest [] = []
rest (e ∷ es) = es

module _ (s : Keyboard) (v : IsValid s) where
  abbrev drop_oldest : Keyboard
  drop_oldest = record s { tail = (s.tail + 1) % 256 }

  abbrev pub Reads : Option KeyEvent → Keyboard → Type 0
  Reads e s' = (e ≡ front (pending s)) × (pending s' ≡ rest (pending s)) × IsValid s'

  none_unread : s.head ≡ s.tail → unread s ≡ 0
  none_unread e = omega (arith, v.tail_bound)

  -- One event less, from the next index on.
  next_unread : s.head ≢ s.tail → unread s ≡ suc (unread drop_oldest)
  next_unread ne = omega (arith, v.tail_bound, v.head_bound)

  drop_oldest-IsValid : IsValid drop_oldest
  drop_oldest-IsValid = record { head_bound = v.head_bound; tail_bound = omega arith }

  -- keyboard_read takes the oldest waiting event off the queue, and gives nothing and changes nothing in
  -- the queue when no event waits.
  pub keyboard_read-Reads : Reads (keyboard_read s).0 (keyboard_read s).1
  unfolding keyboard_read pending window
  keyboard_read-Reads = elim (Bool-cases (s.head == s.tail)) [
    | inl t ↦ rw (t, none_unread ((==_iff _ _).0 t)) (refl, refl, v)
    | inr f ↦
        let more = next_unread (λ e. false≢true (sym f ∙ (==_iff _ _).1 e)) in
        rw (f, more) (refl, refl, drop_oldest-IsValid)
  ]

  abbrev pushed : KeyEvent → Keyboard
  pushed e = push e s

  push-Appends :
      (e : KeyEvent)
      → unread s < 255
      → (pending (push e s) ≡ pending s ++ e ∷ []) × (IsValid (push e s))
  unfolding push pending
  push-Appends e room =
      let count : unread (push e s) ≡ suc (unread s) = omega (arith, v.tail_bound, v.head_bound) in
      (
        rw count (
            window-push s.buffer e s.head s.tail (unread s) v.tail_bound room
              (omega (arith, v.tail_bound, v.head_bound))),
        record { head_bound = omega arith; tail_bound = v.tail_bound },
      )

  push-Overflows : (e : KeyEvent) → unread s ≡ 255 → pending (push e s) ≡ []
  unfolding push pending window
  push-Overflows e full =
      let count : unread (push e s) ≡ 0 = omega (arith, v.tail_bound, v.head_bound) in rw count refl

-- A state with the same ring.
abbrev Keeps : Keyboard → Keyboard → Type 0
Keeps s s' = (s'.buffer ≡ s.buffer) × (s'.head ≡ s.head) × (s'.tail ≡ s.tail)

-- The modifiers stand apart from the ring.
apply_modifier-Keeps :
    (kc : Key) (pressed : Bool) (s : Keyboard) → Keeps s (apply_modifier kc pressed s)
unfolding apply_modifier
apply_modifier-Keeps kc_lshift pressed s = (refl, refl, refl)
apply_modifier-Keeps kc_rshift pressed s = (refl, refl, refl)
apply_modifier-Keeps kc_lctrl pressed s = (refl, refl, refl)
apply_modifier-Keeps kc_rctrl pressed s = (refl, refl, refl)
apply_modifier-Keeps kc_lalt pressed s = (refl, refl, refl)
apply_modifier-Keeps kc_ralt pressed s = (refl, refl, refl)
apply_modifier-Keeps kc_caps pressed s = (refl, refl, refl)
apply_modifier-Keeps _ pressed s = (refl, refl, refl)

unread-Keeps : (s s' : Keyboard) → Keeps s s' → unread s' ≡ unread s
unread-Keeps s s' (b, h, t) = rw (h, t) refl

pending-Keeps : (s s' : Keyboard) → Keeps s s' → pending s' ≡ pending s
unfolding pending
pending-Keeps s s' (b, h, t) = rw (b, h, t) refl

Keeps-IsValid : (s s' : Keyboard) → Keeps s s' → IsValid s → IsValid s'
Keeps-IsValid s s' (b, h, t) v = record {
  head_bound = omega (arith, v.head_bound);
  tail_bound = omega (arith, v.tail_bound);
}

pending-set_e0 : (b : Bool) (s : Keyboard) → pending (record s { e0 = b }) ≡ pending s
unfolding pending
pending-set_e0 b s = refl

set_e0 :
    (b : Bool) (s : Keyboard)
    → IsValid s
    → (pending (record s { e0 = b }) ≡ pending s) × IsValid (record s { e0 = b })
unfolding pending
set_e0 b s v = (refl, record { head_bound = v.head_bound; tail_bound = v.tail_bound })

module _ (s : Keyboard) (v : IsValid s) (sc : ℕ) where
  -- The state that the byte leaves, when it names a key, but for the queue.
  abbrev modified : Keyboard
  modified = apply_modifier (decode sc s) (not (leb 128 sc)) s

  modified-Keeps : Keeps s modified
  modified-Keeps = apply_modifier-Keeps (decode sc s) (not (leb 128 sc)) s

  modified-IsValid : IsValid modified
  modified-IsValid = Keeps-IsValid s modified modified-Keeps v

  abbrev event : KeyEvent
  event = key_event (decode sc s) (not (leb 128 sc)) modified

  abbrev Appends : Keyboard → Type 0
  Appends s' = (pending s' ≡ pending s ++ events sc s) × IsValid s'

  appended :
      unread s < 255
      → (pending (record (push event modified) { e0 = false }) ≡ pending s ++ event ∷ [])
        × IsValid (record (push event modified) { e0 = false })
  appended room =
      let (queue, valid) =
        push-Appends modified modified-IsValid event
          (omega (arith, unread-Keeps s modified modified-Keeps)) in
      let (same, valid₁) = set_e0 false (push event modified) valid in
      (same ∙ queue ∙ ap (λ q. q ++ event ∷ []) (pending-Keeps s modified modified-Keeps), valid₁)

  kept :
      (b : Bool) → (pending (record s { e0 = b }) ≡ pending s ++ []) × IsValid (record s { e0 = b })
  kept b = rw append-nil (set_e0 b s v)

  -- On a valid state with fewer than 255 waiting events, the interrupt handler keeps the state valid and
  -- appends to the queue the event of the byte: none for the prefix 0xE0 and for a byte that stands
  -- for no key, otherwise one with the key, whether it was pressed, and the modifiers after it.
  pub callback-Appends : unread s < 255 → Appends (callback sc s)
  unfolding callback
  callback-Appends room = elim (Bool-cases (sc == 0xe0)) [
    | inl t ↦ rw t (kept true)
    | inr f ↦ elim (Bool-cases (is_none (decode sc s))) [
      | inl t ↦ rw (f, t) (kept false)
      | inr g ↦ rw (f, g) (appended room)
    ]
  ]

  -- When 255 events wait, the next event that the interrupt handler stores makes the queue empty: all
  -- 256 are lost to the reader.
  pub callback-Overflows : unread s ≡ 255 → events sc s ≢ [] → pending (callback sc s) ≡ []
  unfolding callback
  callback-Overflows full some_event = elim (Bool-cases (sc == 0xe0)) [
    | inl t ↦ absurd (some_event (rw t refl))
    | inr f ↦ elim (Bool-cases (is_none (decode sc s))) [
      | inl t ↦ absurd (some_event (rw (f, t) refl))
      | inr g ↦
          rw (f, g)
            (pending-set_e0 false (push event modified)
              ∙ push-Overflows modified modified-IsValid event
                  (unread-Keeps s modified modified-Keeps ∙ full))
    ]
  ]

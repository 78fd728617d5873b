-- ===== src/Reservations/Timeline/Peak.antt =====
-- reservations.py: proofs on the sweep of the simultaneous reservation rule.
use clab_manager.Prelude.{
  ℕ, ◌+◌, ◌≤◌, ◌<◌, ◌≡◌, refl, Bool, true, false, ◌&&◌, List, [], ◌∷◌, ◌⊎◌, inl, inr, tally, All,
  All-append, All-sorted, tally-append, Ordered, sorted, sorted-Ordered, tally-sorted, leb, ltb,
  eqb, if◌then◌else◌, arith, min, max, Bool-cases, leb→le,
}
use clab_manager.Prelude.Int.{ℤ, pos, negsuc, pos_part, neg_part, ◌+ℤ◌, ◌≤ℤ◌, int_laws}
use clab_manager.Reservations.Data.{Entry, on_span}
use clab_manager.Reservations.Timeline.{
  Event, event_le, entry_events, timeline_events, higher, sweep, max_overlap,
}

-- The booking holds at the time `t`.
abbrev pub covers : ℕ → Entry → Bool
covers t x = on_span x (λ a b. leb a t && ltb t b)

-- How many of the bookings hold at `t`.
abbrev pub depth : ℕ → List Entry → ℕ
depth t = tally (covers t)

-- Beginnings and ends up to the time `t`.
abbrev opens : ℕ → Event → Bool
opens t e = leb e.0 t && eqb (pos_part e.1) 1

abbrev closes : ℕ → Event → Bool
closes t e = leb e.0 t && eqb (neg_part e.1) 1

abbrev IsUnit : Event → Type 0
IsUnit e = pos_part e.1 + neg_part e.1 ≡ 1

event_le_total : (x y : Event) → event_le x y ≡ false → event_le y x ≡ true
unfolding event_le
event_le_total x y h = ground arith

event_le_trans : (x y z : Event) → event_le x y ≡ true → event_le y z ≡ true → event_le x z ≡ true
unfolding event_le
event_le_trans x y z h k = ground arith

event_le-time : (x y : Event) → event_le x y ≡ true → x.0 ≤ y.0
unfolding event_le
event_le-time x y h = ground arith

-- After an event at a later time nothing happens up to `t`.
nothing_before :
    (t : ℕ) (e : Event) (es : List Event)
    → t < e.0
    → All (λ y. event_le e y ≡ true) es
    → (tally (opens t) es ≡ 0) × (tally (closes t) es ≡ 0)
nothing_before t e [] lt h = (refl, refl)
nothing_before t e (y ∷ es) lt h =
    ground (arith, event_le-time e y h.0, nothing_before t e es lt h.1)

-- After a beginning at `t` there is no end up to `t`.
no_close_after :
    (e : Event) (es : List Event)
    → pos_part e.1 ≡ 1
    → All (λ y. event_le e y ≡ true) es
    → tally (closes e.0) es ≡ 0
unfolding event_le
no_close_after e [] one h = refl
no_close_after e (y ∷ es) one h = ground (arith, no_close_after e es one h.1)

higher_bounds : (m n : ℤ) → (m ≤ℤ higher m n) × (n ≤ℤ higher m n)
unfolding higher
higher_bounds m n = ground arith

higher-cases : (m n : ℤ) → (higher m n ≡ m) ⊎ ((higher m n ≡ n) × (m ≤ℤ n))
unfolding higher
higher-cases m n = ground arith

sweep-cons :
    (c m : ℤ) (e : Event) (es : List Event)
    → sweep c m (e ∷ es) ≡ sweep (c +ℤ e.1) (higher m (c +ℤ e.1)) es
unfolding sweep
sweep-cons c m e es = refl

-- The sweep never falls below the highest number so far.
sweep_top : (c m : ℤ) (es : List Event) → m ≤ℤ sweep c m es
unfolding sweep
sweep_top c m [] = omega arith
sweep_top c m (e ∷ es) =
    omega (arith, higher_bounds m (c +ℤ e.1), sweep_top (c +ℤ e.1) (higher m (c +ℤ e.1)) es)

-- What an event up to `t` adds to both counts.
tallies-cons :
    (t : ℕ) (e : Event) (es : List Event)
    → IsUnit e
    → e.0 ≤ t
    → (tally (opens t) (e ∷ es) ≡ pos_part e.1 + tally (opens t) es)
      × (tally (closes t) (e ∷ es) ≡ neg_part e.1 + tally (closes t) es)
tallies-cons t e es u h = ground arith

tallies-cons_later :
    (t : ℕ) (e : Event) (es : List Event)
    → t < e.0
    → All (λ y. event_le e y ≡ true) es
    → (tally (opens t) (e ∷ es) ≡ 0) × (tally (closes t) (e ∷ es) ≡ 0)
tallies-cons_later t e es lt h = ground (arith, nothing_before t e es lt h)

-- The sweep is at least what is open at any time.
sweep_bound :
    (t : ℕ) (c m : ℤ) (es : List Event)
    → Ordered event_le es
    → All IsUnit es
    → c ≤ℤ m
    → c +ℤ pos (tally (opens t) es) ≤ℤ sweep c m es +ℤ pos (tally (closes t) es)
sweep_bound t c m [] o u h = unfold sweep in omega int_laws
sweep_bound t c m (e ∷ es) o u h = elim (Bool-cases (leb e.0 t)) [
  | inl early ↦ rw (sweep-cons c m e es) (
      omega (
        int_laws,
        tallies-cons t e es u.0 (leb→le e.0 t early),
        sweep_bound t (c +ℤ e.1) (higher m (c +ℤ e.1)) es o.1 u.1 (higher_bounds m (c +ℤ e.1)).1,
      ))
  | inr late ↦
      omega (int_laws, tallies-cons_later t e es (ground arith) o.0, sweep_top c m (e ∷ es))
]

-- At `t` the events open as much as `r`, less the ends.
abbrev IsReached : ℤ → ℤ → ℕ → List Event → Type 0
IsReached r c t es = r +ℤ pos (tally (closes t) es) ≤ℤ c +ℤ pos (tally (opens t) es)

-- A sweep that ends at the number after its first event.
IsReached-now :
    (r c m : ℤ) (e : Event) (es : List Event)
    → Ordered event_le (e ∷ es)
    → IsUnit e
    → c ≤ℤ m
    → r ≤ℤ higher m (c +ℤ e.1)
    → (r ≤ℤ m) ⊎ ((t : ℕ) × IsReached r c t (e ∷ es))
IsReached-now r c m (u, negsuc k) es o v h low = elim (higher-cases m (c +ℤ negsuc k)) [
  | inl same ↦ inl (rw (← same) low)
  | inr (new, le) ↦ absurd (omega int_laws)
]
IsReached-now r c m (u, pos k) es o v h low = elim (higher-cases m (c +ℤ pos k)) [
  | inl same ↦ inl (rw (← same) low)
  | inr (new, le) ↦ inr (
    u,
    (let low' : r ≤ℤ c +ℤ pos k = rw (← new) low in
        omega (
          int_laws,
          no_close_after (u, pos k) es (omega arith) o.0,
          tallies-cons u (u, pos k) es v (omega arith),
        )),
  )
]

-- The sweep stays at the highest number so far, or reaches what is open at some event's time.
sweep-IsReached :
    (c m : ℤ) (es : List Event)
    → Ordered event_le es
    → All IsUnit es
    → c ≤ℤ m
    → (sweep c m es ≤ℤ m) ⊎ ((t : ℕ) × IsReached (sweep c m es) c t es)
sweep-IsReached c m [] o u h = unfold sweep in inl (omega arith)
sweep-IsReached c m (e ∷ es) o v h =
    let r = sweep (c +ℤ e.1) (higher m (c +ℤ e.1)) es in
    rw (sweep-cons c m e es)
      (elim (sweep-IsReached (c +ℤ e.1) (higher m (c +ℤ e.1)) es o.1 v.1
        (higher_bounds m (c +ℤ e.1)).1) [
          | inl low ↦ IsReached-now r c m e es o v.0 h low
          | inr (t, reached) ↦ elim (Bool-cases (leb e.0 t)) [
            | inl early ↦ inr (t, omega (int_laws, tallies-cons t e es v.0 (leb→le e.0 t early)))
            | inr late ↦ IsReached-now r c m e es o v.0 h (
                omega
                  (int_laws, nothing_before t e es (ground arith) o.0, higher_bounds m (c +ℤ e.1)))
          ]
        ])

-- The booking holds at `t`, inside the window.
abbrev covers_in : ℕ → ℕ → ℕ → Entry → Bool
covers_in start end t x = on_span x (λ a b. leb (max start a) t && ltb t (min end b))

entry_events-IsUnit : (start end : ℕ) (x : Entry) → All IsUnit (entry_events start end x)
unfolding entry_events
entry_events-IsUnit start end x = ground arith

timeline-IsUnit : (start end : ℕ) (xs : List Entry) → All IsUnit (timeline_events start end xs)
unfolding timeline_events
timeline-IsUnit start end [] = tt
timeline-IsUnit start end (x ∷ xs) =
    All-append IsUnit (entry_events start end x) _ (entry_events-IsUnit start end x)
      (timeline-IsUnit start end xs)

entry_events-tally :
    (start end t : ℕ) (x : Entry)
    → tally (opens t) (entry_events start end x)
      ≡ (if covers_in start end t x then 1 else 0) + tally (closes t) (entry_events start end x)
unfolding entry_events
entry_events-tally start end t x = ground arith

-- Beginnings less ends up to `t` are the bookings that hold at `t`.
timeline-tally :
    (start end t : ℕ) (xs : List Entry)
    → tally (opens t) (timeline_events start end xs)
      ≡ tally (covers_in start end t) xs + tally (closes t) (timeline_events start end xs)
unfolding timeline_events
timeline-tally start end t [] = refl
timeline-tally start end t (x ∷ xs) = omega (
  arith,
  tally-append (opens t) (entry_events start end x) (timeline_events start end xs),
  tally-append (closes t) (entry_events start end x) (timeline_events start end xs),
  entry_events-tally start end t x,
  timeline-tally start end t xs,
)

covers_in-eq :
    (start end t : ℕ) (x : Entry) → start ≤ t → t < end → covers_in start end t x ≡ covers t x
covers_in-eq start end t x h k = ground arith

depth_in-eq :
    (start end t : ℕ) (xs : List Entry)
    → start ≤ t
    → t < end
    → tally (covers_in start end t) xs ≡ depth t xs
depth_in-eq start end t [] h k = refl
depth_in-eq start end t (x ∷ xs) h k =
    ground (arith, covers_in-eq start end t x h k, depth_in-eq start end t xs h k)

-- A booking that holds inside the window at `t` puts `t` inside the window.
depth_in_window :
    (start end t : ℕ) (xs : List Entry)
    → 0 < tally (covers_in start end t) xs
    → (start ≤ t) × (t < end)
depth_in_window start end t [] h = absurd (omega arith)
depth_in_window start end t (x ∷ xs) h = ground (arith, depth_in_window start end t xs)

module _ (start end : ℕ) (xs : List Entry) where
  sorted_events : List Event
  sorted_events = sorted event_le (timeline_events start end xs)

  sorted_events-tally :
      (t : ℕ)
      → tally (opens t) sorted_events
        ≡ tally (covers_in start end t) xs + tally (closes t) sorted_events
  unfolding sorted_events
  sorted_events-tally t = omega (
    arith,
    tally-sorted event_le (opens t) (timeline_events start end xs),
    tally-sorted event_le (closes t) (timeline_events start end xs),
    timeline-tally start end t xs,
  )

  sorted_events-Ordered : Ordered event_le sorted_events
  unfolding sorted_events
  sorted_events-Ordered =
      sorted-Ordered event_le event_le_total event_le_trans (timeline_events start end xs)

  sorted_events-IsUnit : All IsUnit sorted_events
  unfolding sorted_events
  sorted_events-IsUnit =
      All-sorted event_le IsUnit (timeline_events start end xs) (timeline-IsUnit start end xs)

  -- At no time of the window do more of the bookings hold than `max_overlap` says.
  pub depth-le-max_overlap :
      (t : ℕ) → start ≤ t → t < end → pos (depth t xs) ≤ℤ max_overlap start end xs
  unfolding max_overlap sorted_events
  depth-le-max_overlap t h k = omega (
    int_laws,
    sweep_bound t (pos 0) (pos 0) sorted_events sorted_events-Ordered sorted_events-IsUnit
        (omega arith),
    sorted_events-tally t,
    depth_in-eq start end t xs h k,
  )

  -- Where `max_overlap` is positive, that many of the bookings hold at some time of the window.
  pub max_overlap_reached :
      pos 1 ≤ℤ max_overlap start end xs
      → (t : ℕ) × (start ≤ t) × (t < end) × (max_overlap start end xs ≤ℤ pos (depth t xs))
  unfolding max_overlap sorted_events
  max_overlap_reached h =
      elim (sweep-IsReached (pos 0) (pos 0) sorted_events sorted_events-Ordered sorted_events-IsUnit
        (omega arith)) [
          | inl low ↦ absurd (omega arith)
          | inr (t, reached) ↦
              let inside =
                depth_in_window start end t xs (omega (int_laws, sorted_events-tally t)) in
              (
                t,
                inside.0,
                inside.1,
                omega
                    (int_laws, sorted_events-tally t, depth_in-eq start end t xs inside.0 inside.1),
              )
        ]

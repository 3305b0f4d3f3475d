-- ===== src/Ui/ScrollingBuffer/Points.antt =====
-- `AddPoint` of src/ui/GuiLayer.hpp and `linearizeBuffer` of GuiLayer.cpp together: the chart shows
-- the last points, in order.
use mathlib.Core.Path.{subst}
use mathlib.Core.List.{append_assoc, append-nil, map-append}
use netprobe_cpp.Base.{
  Ensures-mono, ℕ, zero, suc, ◌-◌, ◌≤◌, ◌≡◌, refl, sym, ap, ◌∙◌, arith, Bool, true, false, ltb,
  ◌==◌, if◌then◌else◌, List, [], ◌∷◌, ◌++◌, map, length, length-append, keep_last, keep_last-short,
  Outcome, done, ◌>>=◌, Ensures, >>=-Ensures, length-drop,
}
use netprobe_cpp.Ui.ScrollingBuffer.{
  ScrollingBuffer, make, put_item, next_offset, add_point, linear_items, linearize,
}
use netprobe_cpp.Ui.ScrollingBuffer.Ring.{IsRing, filling, full, put_item-IsRing}
use netprobe_cpp.Ui.ScrollingBuffer.Linear.{linear_items-turned}

module _ {A : Type 0} where
  -- `AddPoint(x, y)` of one point after the other.
  pub add_points : ScrollingBuffer A → List (A × A) → Outcome (ScrollingBuffer A)
  add_points b [] = done b
  add_points b (p ∷ points) = do b' ← add_point b p.0 p.1; add_points b' points

  pub times_of : List (A × A) → List A
  times_of = map (λ p. p.0)

  pub values_of : List (A × A) → List A
  values_of = map (λ p. p.1)

  -- Both lists are rings of the same points.
  abbrev pub Holds : ℕ → List (A × A) → ScrollingBuffer A → Type 0
  Holds size points b =
      (b.max_size ≡ size)
      × IsRing size b.offset b.values (values_of points)
      × IsRing size b.offset b.times (times_of points)

  length-times_of : (points : List (A × A)) → length (times_of points) ≡ length points
  unfolding times_of
  length-times_of [] = refl
  length-times_of (p ∷ points) = ap suc (length-times_of points)

  length-values_of : (points : List (A × A)) → length (values_of points) ≡ length points
  unfolding values_of
  length-values_of [] = refl
  length-values_of (p ∷ points) = ap suc (length-values_of points)

  length-ring :
      (size offset : ℕ) (items all : List A)
      → IsRing size offset items all
      → length items ≡ length all - (length all - size)
  unfolding keep_last
  length-ring size offset items all (filling l o e) = rw e (omega (arith, l))
  length-ring size offset items all (full newer older o l n e k) =
      let kept : length (keep_last size all) ≡ length (older ++ newer) = ap length k in
      rw e (
        omega (
          arith,
          kept,
          n,
          length-append newer older,
          length-append older newer,
          length-drop (length all - size) all,
        ))

  -- The rings of the same points are as long as each other.
  lengths :
      (size : ℕ) (points : List (A × A)) (b : ScrollingBuffer A)
      → Holds size points b
      → length b.times ≡ length b.values
  lengths size points b (s, values, times) = omega (
    arith,
    length-ring size b.offset b.values (values_of points) values,
    length-ring size b.offset b.times (times_of points) times,
    length-times_of points,
    length-values_of points,
  )

  -- Read from the oldest on, a ring is the last of all.
  linear_items-ring :
      (size offset : ℕ) (items all : List A)
      → IsRing size offset items all
      → linear_items items (if length items == size then offset else 0) (length items) 0
        ≡ done (keep_last size all)
  linear_items-ring size offset items all (filling l o e) =
      let some_room : (length items == size) ≡ false = rw e (ground (arith, l)) in
      rw (some_room, e, keep_last-short size all (omega (arith, l)))
        (linear_items-turned [] all (length all) 0 (omega arith) ∙ ap done (append-nil all))
  linear_items-ring size offset items all (full newer older o l n e k) =
      let no_room : (length (newer ++ older) == size) ≡ true =
        ground (arith, n, length-append newer older) in
      rw (e, no_room, k, sym o)
        (linear_items-turned newer older (length (newer ++ older)) 0
          (omega (arith, length-append newer older)))

  pub add_point-Holds :
      (size : ℕ) (points : List (A × A)) (b : ScrollingBuffer A) (p : A × A)
      → 1 ≤ size
      → Holds size points b
      → Ensures (Holds size (points ++ p ∷ [])) (add_point b p.0 p.1)
  unfolding add_point times_of values_of
  add_point-Holds size points b p h (s, values, times) =
      let room : Bool = ltb (length b.values) size in
      let P : List A → Type 0 =
        λ r. IsRing size (next_offset room size b.offset) r (values_of points ++ p.1 ∷ []) in
      let Q : List A → Type 0 =
        λ r. IsRing size (next_offset room size b.offset) r (times_of points ++ p.0 ∷ []) in
      let R : ScrollingBuffer A → Type 0 = Holds size (points ++ p ∷ []) in
      let put_values : Ensures P (put_item room b.offset b.values p.1) =
        put_item-IsRing size b.offset b.values (values_of points) p.1 h values in
      let put_times : Ensures Q (put_item room b.offset b.times p.0) =
        subst
          (λ n.
            Ensures
              (λ r.
                IsRing size (next_offset (ltb n size) size b.offset) r
                  (times_of points ++ p.0 ∷ []))
              (put_item (ltb n size) b.offset b.times p.0))
          (lengths size points b (s, values, times))
          (put_item-IsRing size b.offset b.times (times_of points) p.0 h times) in
      rw s (
        >>=-Ensures P R (put_item room b.offset b.values p.1) _ put_values λ v at_values.
          >>=-Ensures Q R (put_item room b.offset b.times p.0) _ put_times λ t at_times. (
            refl,
            rw (map-append (λ q. q.1) points (p ∷ [])) at_values,
            rw (map-append (λ q. q.0) points (p ∷ [])) at_times,
          ))

  add_points-Holds :
      (size : ℕ) (before points : List (A × A)) (b : ScrollingBuffer A)
      → 1 ≤ size
      → Holds size before b
      → Ensures (Holds size (before ++ points)) (add_points b points)
  unfolding add_points
  add_points-Holds size before [] b h held = rw (append-nil before) held
  add_points-Holds size before (p ∷ points) b h held =
      >>=-Ensures (Holds size (before ++ p ∷ [])) (Holds size (before ++ p ∷ points))
        (add_point b p.0 p.1) _ (add_point-Holds size before b p h held)
        λ b' one_more.
          subst (λ ps. Ensures (Holds size ps) (add_points b' points))
            (append_assoc before (p ∷ []) points)
            (add_points-Holds size (before ++ p ∷ []) points b' h one_more)

  -- The test for an empty buffer only saves a loop of no rounds.
  if_none :
      (n start : ℕ) (times values : List A) (r : Outcome (List A × List A))
      → (do t ← linear_items times start n 0; v ← linear_items values start n 0; done (t, v)) ≡ r
      → (if n == 0 then done ([], []) else (do
        t ← linear_items times start n 0
        v ← linear_items values start n 0
        done (t, v)))
        ≡ r
  unfolding linear_items
  if_none zero start times values r h = h
  if_none (suc n) start times values r h =
      let some_left : (suc n == 0) ≡ false = ground arith in rw some_left h

  linearize-Holds :
      (size : ℕ) (points : List (A × A)) (b : ScrollingBuffer A)
      → Holds size points b
      → linearize b ≡ done (keep_last size (times_of points), keep_last size (values_of points))
  unfolding linearize
  linearize-Holds size points b (s, values, times) =
      let same : length b.times ≡ length b.values = lengths size points b (s, values, times) in
      let by_values = linear_items-ring size b.offset b.values (values_of points) values in
      let by_times : linear_items b.times (if length b.values == size then b.offset else 0)
            (length b.values) 0
          ≡ done (keep_last size (times_of points)) =
        subst
          (λ n.
            linear_items b.times (if n == size then b.offset else 0) n 0
            ≡ done (keep_last size (times_of points)))
          same (linear_items-ring size b.offset b.times (times_of points) times) in
      rw s (
        if_none (length b.values) (if length b.values == size then b.offset else 0) b.times b.values
          (done (keep_last size (times_of points), keep_last size (values_of points)))
          (rw (by_times, by_values) refl))

  pub make-Holds : (size : ℕ) → 1 ≤ size → Holds size [] (make size)
  unfolding make times_of values_of
  make-Holds size h = (refl, filling (omega arith) refl refl, filling (omega arith) refl refl)

  -- A buffer for `max_size` points, at least one, takes any points without an access out of range,
  -- and read out it gives the last `max_size` of them in the order they came, the times and the
  -- values each.
  pub linearize-add_points :
      (max_size : ℕ) (points : List (A × A))
      → 1 ≤ max_size
      → Ensures
          (λ b.
            linearize b
            ≡ done (keep_last max_size (times_of points), keep_last max_size (values_of points)))
          (add_points (make max_size) points)
  linearize-add_points max_size points h =
      Ensures-mono (Holds max_size points) _ _
        (add_points-Holds max_size [] points (make max_size) h (make-Holds max_size h))
        (linearize-Holds max_size points)

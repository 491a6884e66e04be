-- ===== src/RustScan/Walk.antt =====
-- internal/cmd/herdrsource/rust.go: the loop that `balanced` and `untilArmComma` share, which jumps
-- over what is no code and looks at every other byte. `look`, the switch of the loop, is asked at a
-- depth of nesting and gives the depth behind the byte, or `none` where the loop returns.
use herdr_client.Prelude.{
  ℕ, zero, suc, ◌+◌, ◌-◌, ◌≤◌, ◌≡◌, ◌≢◌, refl, Option, none, some, [], ◌∷◌, length, drop, arith,
  sym, ap, ◌∙◌,
}
use herdr_client.RustScan.Bytes.{Bytes, length-drop}
use herdr_client.RustScan.Skip.{byte_at, skip_non_code}
use herdr_client.RustScan.Advance.{MayJump, skip_non_code-MayJump}

pub data Walked : Type 0 where
  -- the loop returns at this index, or reaches the end
  stops : ℕ → Walked
  ends out_of_fuel : Walked

-- some depth at which the loop returns at a byte
abbrev pub Stopper : (ℕ → ℕ → Option ℕ) → ℕ → Type 0
Stopper look c = (depth : ℕ) × (look depth c ≡ none)

pub byte_at-drop : (n m : ℕ) (s : Bytes) → byte_at m (drop n s) ≡ byte_at (n + m) s
byte_at-drop zero m s = ap (λ k. byte_at k s) (omega arith)
byte_at-drop (suc n) m [] = refl
byte_at-drop (suc n) m (c ∷ s) = byte_at-drop n m s ∙ ap (λ k. byte_at k (c ∷ s)) (suc_later n m)
  where
    suc_later : (a b : ℕ) → suc (a + b) ≡ suc a + b
    suc_later a b = omega arith

module _ (look : ℕ → ℕ → Option ℕ) where
  abbrev pub turn_code : (ℕ → ℕ → Bytes → Walked) → ℕ → Bytes → Option ℕ → Walked
  turn_code next i s none = stops i
  turn_code next i s (some depth) = next depth (i + 1) s

  -- a turn of the loop, by what skipNonCode says
  abbrev pub turn : (ℕ → ℕ → Bytes → Walked) → ℕ → ℕ → ℕ → Bytes → Option ℕ → Walked
  turn next depth i c s (some n) = next depth (i + n) (drop n (c ∷ s))
  turn next depth i c s none = turn_code next i s (look depth c)

  unfoldable pub walk : ℕ → ℕ → ℕ → Bytes → Walked
  walk fuel depth i [] = ends
  walk zero depth i (c ∷ s) = out_of_fuel
  walk (suc fuel) depth i (c ∷ s) =
      turn (λ d j t. walk fuel d j t) depth i c s (skip_non_code (c ∷ s))

  turn-total :
      (fuel : ℕ) (next : ℕ → ℕ → Bytes → Walked) (depth i c : ℕ) (s : Bytes)
      → ((d j : ℕ) (t : Bytes) → length t ≤ fuel → next d j t ≢ out_of_fuel)
      → length s ≤ fuel
      → (o : Option ℕ) → MayJump (c ∷ s) o
      → turn next depth i c s o ≢ out_of_fuel
  turn-total fuel next depth i c s more h (some n) w =
      more depth (i + n) (drop n (c ∷ s)) (omega (arith, h, w, length-drop n (c ∷ s)))
  turn-total fuel next depth i c s more h none w = code (look depth c)
    where
      code : (o : Option ℕ) → turn_code next i s o ≢ out_of_fuel
      code none e = absurd (ground (arith, e))
      code (some d) e = more d (i + 1) s h e

  -- With as much fuel as bytes are left the loop does not run out of it.
  pub walk-total :
      (fuel depth i : ℕ) (s : Bytes) → length s ≤ fuel → walk fuel depth i s ≢ out_of_fuel
  unfolding walk
  walk-total fuel depth i [] h e = absurd (ground (arith, e))
  walk-total zero depth i (c ∷ s) h e = omega (arith, h)
  walk-total (suc fuel) depth i (c ∷ s) h e =
      turn-total fuel (λ d j t. walk fuel d j t) depth i c s (λ d j t k. walk-total fuel d j t k)
        (omega (arith, h)) (skip_non_code (c ∷ s)) (skip_non_code-MayJump (c ∷ s) (omega arith)) e

  abbrev pub StopsAt : ℕ → Bytes → Walked → Type 0
  StopsAt i s (stops j) = (i ≤ j) × ((c : ℕ) × ((byte_at (j - i) s ≡ some c) × Stopper look c))
  StopsAt i s w = Unit {0}

  StopsAt-drop : (i n : ℕ) (s : Bytes) (w : Walked) → StopsAt (i + n) (drop n s) w → StopsAt i s w
  StopsAt-drop i n s ends h = tt
  StopsAt-drop i n s out_of_fuel h = tt
  StopsAt-drop i n s (stops j) (le, (c, (e, k))) = (
    omega (arith, le),
    (c, (sym (byte_at-drop n (j - (i + n)) s ∙ ap (λ m. byte_at m s) (omega (arith, le))) ∙ e, k)),
  )

  turn-StopsAt :
      (next : ℕ → ℕ → Bytes → Walked) (depth i c : ℕ) (s : Bytes)
      → ((d j : ℕ) (t : Bytes) → StopsAt j t (next d j t))
      → (o : Option ℕ) → StopsAt i (c ∷ s) (turn next depth i c s o)
  turn-StopsAt next depth i c s more (some n) =
      StopsAt-drop i n (c ∷ s) _ (more depth (i + n) (drop n (c ∷ s)))
  turn-StopsAt next depth i c s more none = code (look depth c) refl
    where
      zero_apart : i - i ≡ 0
      zero_apart = omega arith

      code : (o : Option ℕ) → look depth c ≡ o → StopsAt i (c ∷ s) (turn_code next i s o)
      code none e = (omega arith, (c, (ap (λ m. byte_at m (c ∷ s)) zero_apart, (depth, e))))
      code (some d) e = StopsAt-drop i 1 (c ∷ s) _ (more d (i + 1) s)

  -- Where the loop returns stands a byte at which its switch returns.
  pub walk-StopsAt : (fuel depth i : ℕ) (s : Bytes) → StopsAt i s (walk fuel depth i s)
  unfolding walk
  walk-StopsAt fuel depth i [] = tt
  walk-StopsAt zero depth i (c ∷ s) = tt
  walk-StopsAt (suc fuel) depth i (c ∷ s) =
      turn-StopsAt (λ d j t. walk fuel d j t) depth i c s (λ d j t. walk-StopsAt fuel d j t)
        (skip_non_code (c ∷ s))

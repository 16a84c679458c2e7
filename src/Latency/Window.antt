-- ===== src/Latency/Window.antt =====
-- internal/utils/latency.go, `Observe`: the tracker against a sliding window over all durations.
use Prim.Native.Nat.add
use mathlib.Core.Path.{subst}
use mathlib.Core.List.{append_assoc, append-nil}
use mirador_rca.Prelude.{
  min, ℕ, zero, suc, ◌+◌, ◌-◌, ◌≤◌, ◌≡◌, refl, sym, ap, ◌∙◌, List, [], ◌∷◌, ◌++◌, foldl, length,
  take, drop, arith, length-append, Bool-cases, inl, inr, ltb,
}
use mirador_rca.Prelude.Int.{ℤ}
use mirador_rca.Latency.{LatencyTracker, new_latency_tracker, copy_down, observe, count}

-- The last `n` elements, or all of them where there are fewer.
abbrev pub last_n : ℕ → List ℤ → List ℤ
last_n n l = drop (length l - n) l

unfoldable pub observe_all : LatencyTracker → List ℤ → LatencyTracker
observe_all = foldl observe

pub observe_all-append :
    (t : LatencyTracker) (xs ys : List ℤ)
    → observe_all t (xs ++ ys) ≡ observe_all (observe_all t xs) ys
unfolding observe_all
observe_all-append t [] ys = refl
observe_all-append t (x ∷ xs) ys = observe_all-append (observe t x) xs ys

length-copy_down : (l : List ℤ) → length (copy_down l) ≡ length l
unfolding copy_down
length-copy_down [] = refl
length-copy_down (x ∷ []) = refl
length-copy_down (x ∷ y ∷ l) = ap suc (length-copy_down (y ∷ l))

-- Once the last place is cut off, the copy has dropped the first element.
take-copy_down : (n : ℕ) (l : List ℤ) → length l ≡ suc n → take n (copy_down l) ≡ drop 1 l
unfolding copy_down
take-copy_down n [] e = elim n as (λ k. take k (copy_down []) ≡ drop {A = ℤ} 1 []) [
  | zero ↦ refl
  | suc k ↦ refl
]
take-copy_down zero (x ∷ []) e = refl
take-copy_down (suc n) (x ∷ []) e = absurd (omega arith)
take-copy_down zero (x ∷ y ∷ l) e = absurd (omega arith)
take-copy_down (suc n) (x ∷ y ∷ l) e = ap (◌∷◌ y) (take-copy_down n (y ∷ l) (omega arith))

drop-append : (k : ℕ) (xs ys : List ℤ) → k ≤ length xs → drop k (xs ++ ys) ≡ drop k xs ++ ys
drop-append zero xs ys h = refl
drop-append (suc k) [] ys h = absurd (omega arith)
drop-append (suc k) (x ∷ xs) ys h = drop-append k xs ys (omega arith)

drop-nil : (j : ℕ) → drop {A = ℤ} j [] ≡ []
drop-nil zero = refl
drop-nil (suc j) = refl

drop-drop : (j k : ℕ) (xs : List ℤ) → drop j (drop k xs) ≡ drop (k + j) xs
drop-drop j zero xs = rw (add.zero j)
drop-drop j (suc k) [] = rw (add.suc k j) (drop-nil j)
drop-drop j (suc k) (x ∷ xs) = rw (add.suc k j) (drop-drop j k xs)

length-drop : (k : ℕ) (xs : List ℤ) → length (drop k xs) ≡ length xs - k
length-drop zero xs = omega arith
length-drop (suc k) [] = omega arith
length-drop (suc k) (x ∷ xs) = omega (arith, length-drop k xs)

-- One observation, in a tracker that is not over-full.
observe-last_n :
    (t : LatencyTracker) (d : ℤ)
    → length t.samples ≤ t.max_size
    → (observe t d).samples ≡ last_n t.max_size (t.samples ++ d ∷ [])
unfolding observe
observe-last_n t d h =
    let grown : List ℤ = t.samples ++ d ∷ [] in
    let size : length grown ≡ length t.samples + 1 = length-append t.samples (d ∷ []) in
    elim (Bool-cases (ltb t.max_size (length grown))) [
      | inl full ↦
          let e : length grown ≡ suc t.max_size = ground arith in
          let one : length grown - t.max_size ≡ 1 = omega arith in
          rw (full, one) (take-copy_down t.max_size grown e)
      | inr fits ↦
          let none_out : length grown - t.max_size ≡ 0 = ground arith in rw (fits, none_out)
    ]

last_n-last_n :
    (n : ℕ) (l : List ℤ) (d : ℤ) → last_n n (last_n n l ++ d ∷ []) ≡ last_n n (l ++ d ∷ [])
last_n-last_n n l d =
    let k = length l - n in
    let window = last_n n l ++ d ∷ [] in
    let size : length window ≡ length l - k + 1 =
      omega (arith, length-append (drop k l) (d ∷ []), length-drop k l) in
    let whole : length (l ++ d ∷ []) ≡ length l + 1 = length-append l (d ∷ []) in
    let total : k + (length window - n) ≡ length (l ++ d ∷ []) - n = omega arith in
    ap (drop (length window - n)) (sym (drop-append k l (d ∷ []) (omega arith)))
    ∙ drop-drop (length window - n) k (l ++ d ∷ [])
    ∙ ap (λ m. drop m (l ++ d ∷ [])) total

pub observe-max_size : (t : LatencyTracker) (d : ℤ) → (observe t d).max_size ≡ t.max_size
unfolding observe
observe-max_size t d = ground arith

length-last_n : (n : ℕ) (l : List ℤ) → length (last_n n l) ≤ n
length-last_n n l = omega (arith, length-drop (length l - n) l)

-- A tracker that holds the window of what it has seen goes on to do so.
pub observe-window :
    (t : LatencyTracker) (seen : List ℤ) (d : ℤ)
    → t.samples ≡ last_n t.max_size seen
    → (observe t d).samples ≡ last_n t.max_size (seen ++ d ∷ [])
observe-window t seen d e =
    observe-last_n t d (rw e (length-last_n t.max_size seen))
    ∙ ap (λ l. last_n t.max_size (l ++ d ∷ [])) e
    ∙ last_n-last_n t.max_size seen d

observe_all-window :
    (n : ℕ) (t : LatencyTracker) (seen durations : List ℤ)
    → t.max_size ≡ n
    → t.samples ≡ last_n n seen
    → (observe_all t durations).samples ≡ last_n n (seen ++ durations)
unfolding observe_all
observe_all-window n t seen [] m e = rw append-nil e
observe_all-window n t seen (d ∷ ds) m e = rw (← append_assoc seen (d ∷ []) ds) (
    observe_all-window n (observe t d) (seen ++ d ∷ []) ds (observe-max_size t d ∙ m) (
      subst (λ k. (observe t d).samples ≡ last_n k (seen ++ d ∷ [])) m
        (observe-window t seen d (subst (λ k. t.samples ≡ last_n k seen) (sym m) e))))

-- The size that `NewLatencyTracker` settles on.
abbrev pub capacity : ℤ → ℕ
capacity size = (new_latency_tracker size).max_size

pub length-last_n-min : (n : ℕ) (l : List ℤ) → length (last_n n l) ≡ min n (length l)
length-last_n-min n l = omega (arith, length-drop (length l - n) l)

new_latency_tracker-samples : (size : ℤ) → (new_latency_tracker size).samples ≡ []
unfolding new_latency_tracker
new_latency_tracker-samples size = ground arith

-- A new tracker that observes any durations, in order, holds exactly the most recent ones: as many
-- as its capacity, or all of them where there are fewer.
pub new_latency_tracker-window :
    (size : ℤ) (durations : List ℤ)
    → (observe_all (new_latency_tracker size) durations).samples ≡ last_n (capacity size) durations
new_latency_tracker-window size durations =
    observe_all-window (capacity size) (new_latency_tracker size) [] durations refl
      (new_latency_tracker-samples size ∙ sym (drop-nil _))

-- `Count` is at most the capacity, which is at least one, whatever has been observed.
pub count_bounds :
    (size : ℤ) (durations : List ℤ)
    → (count (observe_all (new_latency_tracker size) durations) ≤ capacity size)
      × (1 ≤ capacity size)
unfolding count new_latency_tracker
count_bounds size durations = (
  subst (λ l. length l ≤ capacity size) (sym (new_latency_tracker-window size durations))
      (length-last_n (capacity size) durations),
  ground arith,
)

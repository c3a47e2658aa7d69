-- ===== src/ListHead/Ring.antt =====
-- What a circular list stands for: the sequence of the nodes behind its head.
use architecture_evolution_f.Prelude.{
  some, ◌≡◌, ◌≢◌, ◌↔◌, refl, false, List, [], ◌∷◌, ◌++◌, ◌||◌, ◌==◌, arith, has, ◌∈◌, ◌∉◌, Distinct,
}
use architecture_evolution_f.ListHead.{Ptr, null, Heap, Cmd}

-- From `p` the links lead through `xs` to `q`, and back.
abbrev pub Chain : Heap → Ptr → List Ptr → Ptr → Type 0
Chain h p [] q = ((h p).next ≡ q) × ((h q).prev ≡ p)
Chain h p (x ∷ xs) q = ((h p).next ≡ x) × ((h x).prev ≡ p) × Chain h x xs q

-- `head` heads the circular list of the distinct nodes `xs`.
pub record IsRing (h : Heap) (head : Ptr) (xs : List Ptr) : Type 0 where
  pub chain : Chain h head xs head
  pub distinct : Distinct (head ∷ xs)
  pub not_null : null ∉ (head ∷ xs)

-- The node behind `xs`, and the last of `p ∷ xs`.
abbrev pub first_or : List Ptr → Ptr → Ptr
first_or [] q = q
first_or (x ∷ _) q = x

abbrev pub last_of : Ptr → List Ptr → Ptr
last_of p [] = p
last_of p (x ∷ xs) = last_of x xs

-- A chain survives changes that spare the `next` links of its sources and the `prev` links of its
-- targets.
pub Chain-frame :
    (h g : Heap) (p : Ptr) (xs : List Ptr) (q : Ptr)
    → Chain h p xs q
    → ((a : Ptr) → a ∈ (p ∷ xs) → (g a).next ≡ (h a).next)
    → ((a : Ptr) → a ∈ (xs ++ q ∷ []) → (g a).prev ≡ (h a).prev)
    → Chain g p xs q
Chain-frame h g p [] q c n b = (ground (arith, n p), ground (arith, b q))
Chain-frame h g p (x ∷ xs) q c n b = (
  ground (arith, n p),
  ground (arith, b x),
  Chain-frame h g x xs q c.2 (λ a i. n a (ground arith)) (λ a i. b a (ground arith)),
)

-- The node before the one behind `xs` is the last of `p ∷ xs`.
pub prev-first_or :
    (h : Heap) (p : Ptr) (xs ys : List Ptr) (q : Ptr)
    → Chain h p (xs ++ ys) q
    → (h (first_or ys q)).prev ≡ last_of p xs
prev-first_or h p [] [] q c = c.1
prev-first_or h p [] (y ∷ ys) q c = c.1
prev-first_or h p (x ∷ xs) ys q c = prev-first_or h x xs ys q c.2

pub last_of-mem : (p : Ptr) (xs : List Ptr) → last_of p xs ∈ (p ∷ xs)
last_of-mem p [] = ground arith
last_of-mem p (x ∷ xs) = ground (arith, last_of-mem x xs)

pub ne-first_or : (a : Ptr) (ys : List Ptr) (q : Ptr) → a ∉ ys → a ≢ q → a ≢ first_or ys q
ne-first_or a [] q o e = e
ne-first_or a (y ∷ ys) q o e = ground arith

-- The `next` link of a node of a chain leads to the node behind it.
pub next-first_or :
    (h : Heap) (p : Ptr) (xs : List Ptr) (y : Ptr) (ys : List Ptr) (q : Ptr)
    → Chain h p (xs ++ y ∷ ys) q
    → (h y).next ≡ first_or ys q
next-first_or h p [] y [] q c = c.2.0
next-first_or h p [] y (z ∷ ys) q c = c.2.0
next-first_or h p (x ∷ xs) y ys q c = next-first_or h x xs y ys q c.2

pub next-head :
    (h : Heap) (p : Ptr) (ys : List Ptr) (q : Ptr) → Chain h p ys q → (h p).next ≡ first_or ys q
next-head h p [] q c = c.0
next-head h p (y ∷ ys) q c = c.0

pub has-middle :
    (a : Ptr) (xs : List Ptr) (y : Ptr) (ys : List Ptr)
    → has a (xs ++ y ∷ ys) ≡ ((a == y) || has a (xs ++ ys))
has-middle a [] y ys = refl
has-middle a (x ∷ xs) y ys = ground (arith, has-middle a xs y ys)

pub Distinct-middle :
    (xs : List Ptr) (y : Ptr) (ys : List Ptr)
    → Distinct (xs ++ y ∷ ys) ↔ ((y ∉ (xs ++ ys)) × Distinct (xs ++ ys))
Distinct-middle [] y ys = (λ d. d, λ d. d)
Distinct-middle (x ∷ xs) y ys = (
  λ d. ground (arith, (Distinct-middle xs y ys).0 d.1, has-middle x xs y ys),
  λ d. (ground (arith, has-middle x xs y ys), (Distinct-middle xs y ys).1 (ground arith, d.1.1)),
)

pub ne_null_test : {p : Ptr} → p ≢ null → (p == null) ≡ false
ne_null_test n = ground arith

pub mem-ne_null :
    {h : Heap} {head a : Ptr} {xs : List Ptr} → IsRing h head xs → a ∈ (head ∷ xs) → a ≢ null
mem-ne_null r i e = ground (arith, r.not_null)

pub first_or-mem : (xs ys : List Ptr) (head : Ptr) → first_or ys head ∈ (head ∷ xs ++ ys)
first_or-mem xs [] head = ground arith
first_or-mem xs (y ∷ ys) head = ground (arith, has-middle y xs y ys)

-- `g` is `h` but for the nodes of `xs`.
abbrev pub SameOutside : List Ptr → Heap → Heap → Type 0
SameOutside xs h g = (a : Ptr) → a ∉ xs → g a ≡ h a

-- `run` returns, in a memory where `head` heads `xs`, and has written to the nodes `touched` alone.
abbrev pub Relinks : Cmd (Unit {0}) → Heap → Ptr → List Ptr → List Ptr → Type 0
Relinks run h head xs touched =
    (g : Heap) × (run h ≡ some (tt, g)) × IsRing g head xs × SameOutside touched h g

-- ===== src/Hlist/Chain.antt =====
-- What a hash list stands for: the sequence of the nodes behind its head.
use architecture_evolution_f.Prelude.{
  ◌≡◌, ◌≢◌, refl, ap, ◌∙◌, Bool, false, Option, some, List, [], ◌∷◌, ◌++◌, arith, has, ◌∈◌, ◌∉◌,
  Distinct,
}
use architecture_evolution_f.ListHead.{Ptr, null}
use architecture_evolution_f.Hlist.{Place, first_of, next_of, Memory, value}

-- From the place `p` the links lead through `xs` to NULL, and each node knows where its address is kept.
abbrev pub Chain : Memory → Place → List Ptr → Type 0
Chain m p [] = value m p ≡ null
Chain m p (x ∷ xs) = (value m p ≡ x) × ((m.nodes x).pprev ≡ some p) × Chain m (next_of x) xs

-- `head` heads the hash list of the distinct nodes `xs`, none of which is NULL or has been freed.
pub record IsHlist (m : Memory) (head : Ptr) (xs : List Ptr) : Type 0 where
  pub chain : Chain m (first_of head) xs
  pub distinct : Distinct xs
  pub not_null : null ∉ xs
  pub live_head : m.freed_heads head ≡ false
  pub live : (a : Ptr) → a ∈ xs → m.freed_nodes a ≡ false

-- Is the place the `next` of a node of the list?
abbrev pub lies_in : Place → List Ptr → Bool
lies_in (first_of h) xs = false
lies_in (next_of a) xs = has a xs

-- A chain survives changes that spare its place, the `next` links and the `pprev` links of its nodes.
pub Chain-frame :
    (m m' : Memory) (p : Place) (xs : List Ptr)
    → Chain m p xs
    → value m' p ≡ value m p
    → ((a : Ptr) → a ∈ xs → (m'.nodes a).next ≡ (m.nodes a).next)
    → ((a : Ptr) → a ∈ xs → (m'.nodes a).pprev ≡ (m.nodes a).pprev)
    → Chain m' p xs
Chain-frame m m' p [] c v n b = cc
Chain-frame m m' p (x ∷ xs) c v n b =
    let i : x ∈ (x ∷ xs) = ground arith in
    let b' = b x i in
    (
      cc,
      cc,
      Chain-frame m m' (next_of x) xs c.2 (n x i) (λ a j. n a (ground arith))
          (λ a j. b a (ground arith)),
    )

-- The node behind `ys`, or NULL.
abbrev pub first_or_null : List Ptr → Ptr
first_or_null [] = null
first_or_null (y ∷ _) = y

-- The place that keeps the address of the node behind `xs`.
abbrev pub last_place : Place → List Ptr → Place
last_place p [] = p
last_place p (x ∷ xs) = last_place (next_of x) xs

pub Chain-first :
    (m : Memory) (p : Place) (xs : List Ptr) → Chain m p xs → value m p ≡ first_or_null xs
Chain-first m p [] c = c
Chain-first m p (x ∷ xs) c = c.0

pub Chain-middle :
    (m : Memory) (p : Place) (xs : List Ptr) (y : Ptr) (ys : List Ptr)
    → Chain m p (xs ++ y ∷ ys)
    → ((m.nodes y).next ≡ first_or_null ys) × ((m.nodes y).pprev ≡ some (last_place p xs))
Chain-middle m p [] y ys c = (Chain-first m (next_of y) ys c.2, c.1)
Chain-middle m p (x ∷ xs) y ys c = Chain-middle m (next_of x) xs y ys c.2

-- The node behind the head is live, if there is one.
pub first_or_null-live :
    (m : Memory) (ys : List Ptr)
    → ((a : Ptr) → a ∈ ys → m.freed_nodes a ≡ false)
    → first_or_null ys ≢ null
    → m.freed_nodes (first_or_null ys) ≡ false
first_or_null-live m [] live real = absurd (real refl)
first_or_null-live m (y ∷ ys) live real = live y (ground arith)

-- `m'` is `m` but for the head `h` and the nodes of `xs`, and nothing more has been freed.
pub record SameBut (h : Ptr) (xs : List Ptr) (m m' : Memory) : Type 0 where
  pub first : (k : Ptr) → k ≢ h → m'.first k ≡ m.first k
  pub next : (a : Ptr) → a ∉ xs → (m'.nodes a).next ≡ (m.nodes a).next
  pub pprev : (a : Ptr) → a ∉ xs → (m'.nodes a).pprev ≡ (m.nodes a).pprev
  pub freed_heads : m'.freed_heads ≡ m.freed_heads
  pub freed_nodes : m'.freed_nodes ≡ m.freed_nodes

-- `run` returns, and its memory has `head` head `xs` and differs from that before in the head and
-- in the nodes `touched` alone.
abbrev pub Rehangs : (Memory → Option Memory) → Memory → Ptr → List Ptr → List Ptr → Type 0
Rehangs run m head xs touched =
    (m' : Memory) × (run m ≡ some m') × IsHlist m' head xs × SameBut head touched m m'

-- A list of another head is spared.
pub SameBut-IsHlist :
    (h k : Ptr) (touched xs : List Ptr) (m m' : Memory)
    → SameBut h touched m m'
    → k ≢ h
    → ((a : Ptr) → a ∈ xs → a ∉ touched)
    → IsHlist m k xs
    → IsHlist m' k xs
SameBut-IsHlist h k touched xs m m' s d o r = record {
  chain =
      Chain-frame m m' (first_of k) xs r.chain (s.first k d) (λ a i. s.next a (o a i))
        (λ a i. s.pprev a (o a i));
  distinct = r.distinct;
  not_null = r.not_null;
  live_head = ap (λ f. f k) s.freed_heads ∙ r.live_head;
  live = λ a i. ap (λ f. f a) s.freed_nodes ∙ r.live a i;
}

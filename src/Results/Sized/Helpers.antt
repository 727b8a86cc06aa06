-- ===== src/Results/Sized/Helpers.antt =====
-- What the constructor leaves in the helpers: running sizes, and where the subtree of each element ends.
use object_introspection.Prelude.{
  ℕ, zero, suc, ◌+◌, ◌-◌, ◌<◌, ◌≡◌, refl, sym, ◌∙◌, subst, ap, All-map, List, [], ◌∷◌, ◌++◌, All,
  arith, true, false, Bool-cases, inl, inr, leb, ltb, if◌then◌else◌, length, add_u64,
}
use object_introspection.Results.{Element}
use object_introspection.Results.Sized.{
  SizeHelper, StackEntry, depth_of, set_last, close, close_all,
}

-- How many of the elements that follow are deeper: the subtree of an element of that depth.
unfoldable pub deeper : ℕ → List Element → List Element
deeper d [] = []
deeper d (e ∷ es) = let rest = deeper d es in if ltb d (depth_of e) then e ∷ rest else []

-- The helpers of elements from the index `k` on, where those before them add up to `size`.
unfoldable pub helpers_from : ℕ → ℕ → List Element → List SizeHelper
unfolding deeper
helpers_from k size [] = []
helpers_from k size (e ∷ es) =
    let total = add_u64 size e.exclusive_size in
    record { size = total; last_child = k + length (deeper (depth_of e) es) }
    ∷ helpers_from (suc k) total es

-- The helpers once the entries of the stack are closed, each where its subtree ends.
unfoldable pub settle : ℕ → List Element → List StackEntry → List SizeHelper → List SizeHelper
unfolding deeper set_last
settle k es [] hs = hs
settle k es (s ∷ st) hs = settle k es st (set_last hs s.index (k - 1 + length (deeper s.depth es)))

-- Every entry lies before `k`, and deeper entries lie above.
abbrev pub IsStack : ℕ → List StackEntry → Type 0
IsStack k [] = Unit
IsStack k (s ∷ st) = (s.index < k) × All (λ t. t.depth < s.depth) st × IsStack k st

set_last-append :
    (hs ks : List SizeHelper) (i v : ℕ)
    → i < length hs
    → set_last (hs ++ ks) i v ≡ set_last hs i v ++ ks
unfolding set_last
set_last-append [] ks i v h = elim h [ ]
set_last-append (x ∷ hs) ks zero v h = refl
set_last-append (x ∷ hs) ks (suc i) v h = ap (λ l. x ∷ l) (set_last-append hs ks i v (omega arith))

pub set_last_end :
    (hs : List SizeHelper) (size v w : ℕ)
    → set_last (hs ++ record { size = size; last_child = w } ∷ []) (length hs) v
      ≡ hs ++ record { size = size; last_child = v } ∷ []
unfolding set_last
set_last_end [] size v w = refl
set_last_end (x ∷ hs) size v w = ap (λ l. x ∷ l) (set_last_end hs size v w)

pub length-set_last : (hs : List SizeHelper) (i v : ℕ) → length (set_last hs i v) ≡ length hs
unfolding set_last
length-set_last [] i v = refl
length-set_last (x ∷ hs) zero v = refl
length-set_last (x ∷ hs) (suc i) v = ap suc (length-set_last hs i v)

pub settle-append :
    (k : ℕ) (es : List Element) (st : List StackEntry) (hs ks : List SizeHelper)
    → IsStack (length hs) st
    → settle k es st (hs ++ ks) ≡ settle k es st hs ++ ks
unfolding settle
settle-append k es [] hs ks h = refl
settle-append k es (s ∷ st) hs ks h =
    let last = k - 1 + length (deeper s.depth es) in
    ap (settle k es st) (set_last-append hs ks s.index last h.0)
    ∙ settle-append k es st (set_last hs s.index last) ks
        (subst (λ n. IsStack n st) (sym (length-set_last hs s.index last)) h.2)

-- Closing the entries that are not above the next element changes nothing of what settling gives.
pub settle-close :
    (k : ℕ) (e : Element) (es : List Element) (st : List StackEntry) (hs : List SizeHelper)
    → let r = close (depth_of e) (k - 1) st hs in
      settle k (e ∷ es) st hs ≡ settle k (e ∷ es) r.0 r.1
unfolding settle close deeper
settle-close k e es [] hs = refl
settle-close k e es (s ∷ st) hs = elim (Bool-cases (leb (depth_of e) s.depth)) [
  | inl closed ↦
      let shallow : ltb s.depth (depth_of e) ≡ false = ground arith in
      let rest = settle-close k e es st (set_last hs s.index (k - 1)) in
      let none_below : k - 1 + 0 ≡ k - 1 = omega arith in rw (closed, shallow, none_below) rest
  | inr open_still ↦ rw open_still
]

pub close-IsStack :
    (k depth last : ℕ) (st : List StackEntry) (hs : List SizeHelper)
    → IsStack k st
    → let r = close depth last st hs in
      IsStack k r.0 × All (λ t. t.depth < depth) r.0 × (length r.1 ≡ length hs)
unfolding close
close-IsStack k depth last [] hs h = (tt, tt, refl)
close-IsStack k depth last (s ∷ st) hs h = elim (Bool-cases (leb depth s.depth)) [
  | inl closed ↦
      let (a, b, c) = close-IsStack k depth last st (set_last hs s.index last) h.2 in
      rw closed (a, b, c ∙ length-set_last hs s.index last)
  | inr open_still ↦
      let low : s.depth < depth = ground arith in
      rw open_still (h, (low, All-map (λ t lower. omega arith) st h.1), refl)
]

pub settle_shift :
    (k : ℕ) (e : Element) (es : List Element) (st : List StackEntry) (hs : List SizeHelper)
    → IsStack k st
    → All (λ t. t.depth < depth_of e) st
    → settle k (e ∷ es) st hs ≡ settle (suc k) es st hs
unfolding settle deeper
settle_shift k e es [] hs h low = refl
settle_shift k e es (s ∷ st) hs h low =
    let inside : ltb s.depth (depth_of e) ≡ true = ground arith in
    let n = length (deeper s.depth es) in
    let at : k - 1 + suc n ≡ suc k - 1 + n = omega arith in
    rw (inside, at) (settle_shift k e es st (set_last hs s.index (suc k - 1 + n)) h.2 low.1)

pub close_all-settle :
    (k : ℕ) (st : List StackEntry) (hs : List SizeHelper)
    → close_all (k - 1) st hs ≡ settle k [] st hs
unfolding close_all settle deeper
close_all-settle k [] hs = refl
close_all-settle k (s ∷ st) hs =
    let at : k - 1 + 0 ≡ k - 1 = omega arith in
    rw at (close_all-settle k st (set_last hs s.index (k - 1)))

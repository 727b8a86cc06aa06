-- ===== src/Results/Sized.antt =====
-- include/oi/result/SizedResult.h and SizedResult-inl.h: the size of each element with all below it.
-- The iterator of the result below is the list of the elements that it still has to give.
pub mod Helpers
pub mod Loop
pub mod Sizes
use object_introspection.Prelude.{
  ℕ, zero, suc, ◌+◌, ◌-◌, ◌^◌, List, [], ◌∷◌, ◌++◌, Option, none, some, Outcome, ok, err, dangling,
  out_of_fuel, of_option, ◌>>=◌, if◌then◌else◌, leb, ◌==◌, length, get_elem?, add_u64, sub_u64,
}
use object_introspection.Results.{Element}

pub record SizeHelper : Type 0 where
  pub size : ℕ
  pub last_child : ℕ

pub record StackEntry : Type 0 where
  pub index : ℕ
  pub depth : ℕ

abbrev pub depth_of : Element → ℕ
depth_of e = length e.type_path

-- `helpers_[i].last_child = v`.
unfoldable pub set_last : List SizeHelper → ℕ → ℕ → List SizeHelper
set_last [] i v = []
set_last (h ∷ hs) zero v = record h { last_child = v } ∷ hs
set_last (h ∷ hs) (suc i) v = h ∷ set_last hs i v

-- The variables of the loop. `seen` is `count + 1`, so it starts at 0 where `count` starts at -1.
pub record Sizing : Type 0 where
  pub stack : List StackEntry
  pub helpers : List SizeHelper
  pub size : ℕ
  pub seen : ℕ

abbrev pub start : Sizing
start = record { stack = []; helpers = []; size = 0; seen = 0 }

-- `while (!stack.empty() && stack.back().depth >= depth)`; the top of the stack is its head.
unfoldable pub close :
    (depth last : ℕ) → List StackEntry → List SizeHelper → List StackEntry × List SizeHelper
unfolding set_last
close depth last [] hs = ([], hs)
close depth last (e ∷ es) hs =
    let closed = close depth last es (set_last hs e.index last) in
    if leb depth e.depth then closed else (e ∷ es, hs)

-- The body of the loop over the elements.
unfoldable pub size_step : Element → Sizing → Sizing
unfolding close
size_step e s =
    let count = s.seen in
    let (stack, helpers) = close (depth_of e) (count - 1) s.stack s.helpers in
    let size = add_u64 s.size e.exclusive_size in
    record {
      stack = record { index = count; depth = depth_of e } ∷ stack;
      helpers = helpers ++ record { size = size; last_child = 2 ^ 64 - 1 } ∷ [];
      size = size;
      seen = suc count;
    }

unfoldable pub size_all : List Element → Sizing → Sizing
unfolding size_step
size_all [] s = s
size_all (e ∷ es) s = size_all es (size_step e s)

-- `while (!stack.empty())`, behind the loop.
unfoldable pub close_all : ℕ → List StackEntry → List SizeHelper → List SizeHelper
unfolding set_last
close_all last [] hs = hs
close_all last (e ∷ es) hs = close_all last es (set_last hs e.index last)

-- The helpers that the constructor computes.
unfoldable pub size_helpers : List Element → List SizeHelper
unfolding size_all close_all
size_helpers es = let s = size_all es start in close_all (s.seen - 1) s.stack s.helpers

-- `SizedElement`.
pub record SizedElement : Type 0 where
  pub inner : Element
  pub size : ℕ

pub record SizedIterator : Type 0 where
  pub rest : List Element
  pub helpers : List SizeHelper
  pub count : ℕ
  pub next : Option SizedElement

unfoldable pub iterator : List Element → SizedIterator
unfolding size_helpers
iterator es = record { rest = es; helpers = size_helpers es; count = 0; next = none }

-- `++data_`, which stays at the end once it is there.
abbrev pub advance_data : List Element → List Element
advance_data [] = []
advance_data (e ∷ es) = es

abbrev pub first : List Element → Option Element
first [] = none
first (e ∷ es) = some e

-- `size -= helpers_[count_ - 1].size`, where `count_` is not 0.
unfoldable pub less_before : List SizeHelper → ℕ → ℕ → Outcome ℕ
less_before hs zero size = ok size
less_before hs (suc c) size = of_option dangling (get_elem? hs c) >>= λ h. ok (sub_u64 size h.size)

-- The part of `operator++` behind the test for the end; `rest` is `data_` by then.
unfoldable pub forward : List Element → SizedIterator → Outcome SizedIterator
unfolding less_before
forward rest it = do
  h ← of_option dangling (get_elem? it.helpers it.count)
  l ← of_option dangling (get_elem? it.helpers h.last_child)
  size ← less_before it.helpers it.count l.size
  e ← of_option dangling (first rest)
  ok (record {
    rest = rest;
    helpers = it.helpers;
    count = suc it.count;
    next = some (record { inner = e; size = size });
  })

-- `operator++`.
unfoldable pub increment : SizedIterator → Outcome SizedIterator
unfolding forward
increment it =
    let rest = if it.count == 0 then it.rest else advance_data it.rest in
    if it.count == length it.helpers
    then ok (record it { rest = rest; next = none })
    else forward rest it

-- `for (; it != end(); ++it)`, which tells the end by `data_`; the fuel is the number of turns.
unfoldable pub collect : ℕ → SizedIterator → Outcome (List SizedElement)
unfolding increment
collect zero it = out_of_fuel
collect (suc f) it = elim it.rest [
  | [] ↦ ok []
  | e ∷ es ↦ of_option dangling it.next >>= λ x.
      increment it >>= λ it'. collect f it' >>= λ xs. ok (x ∷ xs)
]

-- `begin()`, and the loop to `end()`.
unfoldable pub sized_result : ℕ → List Element → Outcome (List SizedElement)
unfolding iterator collect
sized_result f es = increment (iterator es) >>= collect f

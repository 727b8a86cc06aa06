-- ===== src/Results/Iterator/Loop.antt =====
-- The loop over a result, from its begin to its end.
use object_introspection.Prelude.{
  ℕ, zero, suc, ◌+◌, ◌^◌, ◌≡◌, ◌<◌, refl, ◌∙◌, ap, List, [], ◌∷◌, Option, none, some, Outcome, ok,
  err, aborted, ◌>>=◌, String, length, arith, ◌==◌, Bool, true, false, add_u64,
}
use object_introspection.Results.{Element}
use object_introspection.Results.Iterator.{
  Inst, Field, Core, ResultIterator, step, increment, cbegin, cend, equal, elements, increment_on,
  after_step, loop_turn,
}
use object_introspection.Results.Iterator.Walk.{walk, Walked}
use object_introspection.Results.Iterator.Simulation.{Steps, done, silent, gives, simulates, steps}

module _ (table : List Field) (show_pointer : ℕ → String) where
  abbrev at : Core → Option Element → ℕ → ResultIterator
  at c next n = record { core = c; next = next; increments = n }

  increment_silent :
      (f : ℕ) (i : Inst) (is : List Inst) (c c' : Core) (next : Option Element) (n : ℕ)
      → c.stack ≡ i ∷ is
      → step table show_pointer i (record c { stack = is }) ≡ ok (none, c')
      → increment table show_pointer (suc f) (at c next n)
        ≡ increment table show_pointer f (at c' next (add_u64 n 1))
  unfolding increment
  increment_silent f i is c c' next n h k =
      let again = increment table show_pointer f in
      ap (increment_on table show_pointer again (at c next n)) h
      ∙ ap (λ o. o >>= after_step table show_pointer again (at c next n)) k

  increment_gives :
      (f : ℕ) (i : Inst) (is : List Inst) (c c' : Core) (e : Element) (next : Option Element)
      (n : ℕ)
      → c.stack ≡ i ∷ is
      → step table show_pointer i (record c { stack = is }) ≡ ok (some e, c')
      → increment table show_pointer (suc f) (at c next n) ≡ ok (at c' (some e) (add_u64 n 1))
  unfolding increment
  increment_gives f i is c c' e next n h k =
      let again = increment table show_pointer f in
      ap (increment_on table show_pointer again (at c next n)) h
      ∙ ap (λ o. o >>= after_step table show_pointer again (at c next n)) k

  increment_end :
      (f : ℕ) (c : Core) (next : Option Element) (n : ℕ)
      → c.stack ≡ []
      → (m : ℕ) × (increment table show_pointer (suc f) (at c next n) ≡ ok (at c none m))
  unfolding increment
  increment_end f c none n h =
      (n, ap (increment_on table show_pointer (increment table show_pointer f) (at c none n)) h)
  increment_end f c (some e) n h = (
    add_u64 n 1,
    ap (increment_on table show_pointer (increment table show_pointer f) (at c (some e) n)) h,
  )

  -- What the loop returns where it has come to the end of the instructions.
  abbrev pub read_out : List ℕ → List Element → Outcome (List Element)
  read_out [] es = ok es
  read_out (b ∷ bytes) es = err aborted

  abbrev is_nil : List ℕ → Bool
  is_nil [] = true
  is_nil (b ∷ bs) = false

  at_end :
      (c : Core) (m : ℕ) (bytes : List ℕ)
      → c.bytes ≡ bytes
      → equal table show_pointer (at c none m) (cend table show_pointer) ≡ is_nil bytes
  unfolding equal
  at_end c m [] h =
      let same : (length c.bytes == 0) ≡ true = let l = ap length h in ground arith in rw same refl
  at_end c m (b ∷ bs) h =
      let more : (length c.bytes == 0) ≡ false = let l = ap length h in ground arith in rw more refl

  elements_end :
      (f turns m : ℕ) (c : Core) (bytes : List ℕ)
      → c.bytes ≡ bytes
      → elements table show_pointer f (suc turns) (at c none m) ≡ read_out bytes []
  unfolding elements
  elements_end f turns m c [] h =
      ap (loop_turn table show_pointer f (elements table show_pointer f turns) (at c none m))
        (at_end c m [] h)
  elements_end f turns m c (b ∷ bs) h =
      ap (loop_turn table show_pointer f (elements table show_pointer f turns) (at c none m))
        (at_end c m (b ∷ bs) h)

  goes_on :
      (c : Core) (e : Element) (n : ℕ)
      → 0 < n
      → equal table show_pointer (at c (some e) n) (cend table show_pointer) ≡ false
  unfolding equal
  goes_on c e n h = ground arith

  read_out_cons :
      (bytes : List ℕ) (e : Element) (es : List Element)
      → (read_out bytes es >>= λ xs. let o : Outcome (List Element) = ok (e ∷ xs) in o)
        ≡ read_out bytes (e ∷ es)
  read_out_cons [] e es = refl
  read_out_cons (b ∷ bs) e es = refl

  elements_more :
      (f turns n : ℕ) (c : Core) (e : Element) (es : List Element) (bytes : List ℕ)
      → 0 < n
      → (increment table show_pointer f (at c (some e) n) >>= elements table show_pointer f turns)
        ≡ read_out bytes es
      → elements table show_pointer f (suc turns) (at c (some e) n) ≡ read_out bytes (e ∷ es)
  unfolding elements
  elements_more f turns n c e es bytes h rest =
      ap (loop_turn table show_pointer f (elements table show_pointer f turns) (at c (some e) n))
        (goes_on c e n h)
      ∙ ap
          (λ (r : Outcome (List Element)).
            r >>= λ xs. let o : Outcome (List Element) = ok (e ∷ xs) in o)
          rest
      ∙ read_out_cons bytes e es

  loops :
      {c d : Core} {es : List Element} (p : Steps table show_pointer c es d) (f g turns n : ℕ)
      (next : Option Element)
      → d.stack ≡ []
      → steps table show_pointer p < g
      → steps table show_pointer p < f
      → n + steps table show_pointer p + 1 < 2 ^ 64
      → length es < turns
      → (increment table show_pointer g (at c next n) >>= elements table show_pointer f turns)
        ≡ read_out d.bytes es
  unfolding steps
  loops p f zero turns n next h k k' b t = absurd (omega arith)
  loops p f (suc g) zero n next h k k' b t = absurd (omega arith)
  loops {c = c} done f (suc g) (suc turns) n next h k k' b t =
      let (m, e) = increment_end g c next n h in
      ap (λ o. o >>= elements table show_pointer f (suc turns)) e
      ∙ elements_end f turns m c c.bytes refl
  loops {c = c} (silent i is c' q q' p) f (suc g) (suc turns) n next h k k' b t =
      let n_eq : add_u64 n 1 ≡ suc n = omega arith in
      ap (λ o. o >>= elements table show_pointer f (suc turns))
        (increment_silent g i is c c' next n q q')
      ∙ loops p f g (suc turns) (add_u64 n 1) next h (omega arith) (omega arith)
          (omega (arith, n_eq)) t
  loops {c = c} {d = d} (gives {es = es} i is e c' q q' p) f (suc g) (suc turns) n next h k k' b t =
      let n_eq : add_u64 n 1 ≡ suc n = omega arith in
      ap (λ o. o >>= elements table show_pointer f (suc turns))
        (increment_gives g i is c c' e next n q q')
      ∙ elements_more f turns (add_u64 n 1) c' e es d.bytes (omega (arith, n_eq)) (
          loops p f f turns (add_u64 n 1) (some e) h (omega arith) (omega arith)
            (omega (arith, n_eq)) (omega arith))

  -- Where the traversal of a segment has a result, the loop from `cbegin` to `cend` gives exactly its
  -- elements, each under the path of the fields around it, if the traversal has read the whole
  -- segment; if it has not, the loop goes past its end, where `operator*` fails its assertion. Fuel
  -- above the number of instructions is enough, which has to stay below 2 ^ 64.
  pub elements-walk :
      (n : ℕ) (inst : Inst) (buf : List ℕ) (w : Walked table show_pointer)
      → walk table show_pointer n (inst ∷ []) [] buf ≡ ok w
      → (f turns : ℕ) → w.work < f
      → w.work + 1 < 2 ^ 64
      → length w.elements < turns
      → (cbegin table show_pointer f buf inst >>= elements table show_pointer f turns)
        ≡ read_out w.rest w.elements
  unfolding cbegin
  elements-walk n inst buf w h f turns enough small long =
      let (p, same) = simulates table show_pointer n (inst ∷ []) [] buf w h [] [] tt in
      loops p f f turns 0 none refl (omega (arith, same)) (omega (arith, same))
        (omega (arith, same)) long

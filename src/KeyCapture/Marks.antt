-- ===== src/KeyCapture/Marks.antt =====
-- captureKey: the node that it adds, and what is left as it was.
use object_introspection.Prelude.{
  ℕ, suc, ◌≡◌, refl, sym, ◌∙◌, ap, subst, [], ◌∷◌, ◌++◌, none, Option, true, some, Outcome, ok,
  of_option, dangling, >>=-eq-ok, ok-injective, get_elem?-append_left, get_elem?-append_end,
  lt-length_of_get_elem?, String, ◌&◌, length, length-append, arith,
}
use object_introspection.Types.{
  Ref, ContainerInfo, Node, incomplete, class_node, container, primitive, enum_node, array, typedef,
  pointer, reference, dummy, dummy_allocator, capture_keys,
}
use object_introspection.Store.{deref, make_leaf}
use object_introspection.Store.Extension.{Extends}
use object_introspection.Layout.{size_of, align_of, strip_typedefs}
use object_introspection.NameGen.{name_at}
use object_introspection.KeyCapture.{Capturing, make_capture, capture_node, capture_key}

-- A CaptureKeys node above `r`, new in the graph, where all other nodes are as they were. Its info,
-- `info`, is also put behind the infos of the pass.
pub record Marked (info : ContainerInfo) (r r' : Ref) (s s' : Capturing) : Type 0 where
  pub name : String
  pub node :
      deref s'.graph r'
      ≡ some (capture_keys (record { underlying_type = r; container_info = info; name = name }))
  pub infos : s'.infos ≡ s.infos ++ info ∷ []
  pub tracker : s'.tracker ≡ s.tracker
  pub kept : Extends s.graph s'.graph
  pub added : length s'.graph.nodes ≡ suc (length s.graph.nodes)
  pub size : (f : ℕ) → size_of (suc f) s'.graph r' ≡ size_of f s'.graph r
  pub align : (f : ℕ) → align_of (suc f) s'.graph r' ≡ align_of f s'.graph r
  pub again : (f : ℕ) → capture_key (suc f) r' s' ≡ ok (r', s')

module _ (info : ContainerInfo) (r : Ref) (s : Capturing) (name : String) where
  abbrev node : Node
  node =
      capture_keys (record {
        underlying_type = r;
        container_info = info;
        name = "OICaptureKeys<" & name & ">";
      })

  abbrev marked : Capturing
  marked = record s {
    graph = record s.graph { nodes = s.graph.nodes ++ node ∷ [] };
    infos = s.infos ++ info ∷ [];
  }

  deref-marked : deref marked.graph (length s.graph.nodes) ≡ some node
  deref-marked = get_elem?-append_end s.graph.nodes node

  marked-Marked : Marked info r (length s.graph.nodes) s marked
  unfolding size_of align_of capture_key strip_typedefs capture_node
  marked-Marked = record {
    name = "OICaptureKeys<" & name & ">";
    node = deref-marked;
    infos = refl;
    tracker = refl;
    kept = λ x n e.
        get_elem?-append_left s.graph.nodes _ x (lt-length_of_get_elem? s.graph.nodes x e) ∙ e;
    added = length-append s.graph.nodes (node ∷ []) ∙ omega arith;
    size = λ f. rw (deref-marked, size_of) refl;
    align = λ f. rw (deref-marked, align_of) refl;
    again = λ f. rw (deref-marked, capture_key, strip_typedefs) (rw deref-marked refl);
  }

make_capture-Marked :
    (info : ContainerInfo) (r r' : Ref) (s s' : Capturing)
    → make_capture info r s ≡ ok (r', s')
    → Marked info r r' s s'
unfolding make_capture make_leaf
make_capture-Marked info r r' s s' h =
    let (name, _, h') = >>=-eq-ok (name_at s.graph r) _ h in
    let p : (length s.graph.nodes, marked info r s name) ≡ (r', s') = ok-injective h' in
    subst (λ p. Marked info r p.0 s p.1) p (marked-Marked info r s name)

-- The type itself, and nothing is changed.
abbrev pub Unmarked : Ref → Ref → Capturing → Capturing → Type 0
Unmarked r r' s s' = (r' ≡ r) × (s' ≡ s)

-- What is made for a type that is the node `n` behind the typedefs: a node that captures the keys for
-- a container, with the info of the container and `captureKeys` set, and nothing for any other.
abbrev pub Captures : Node → Ref → Ref → Capturing → Capturing → Type 0
Captures (container c) r r' s s' =
    Marked (record c.container_info { capture_keys = true }) r r' s s'
Captures n r r' s s' = Unmarked r r' s s'

same_result :
    {r r' : Ref} {s s' : Capturing}
    → Path (Outcome (Ref × Capturing)) (ok (r, s)) (ok (r', s'))
    → Unmarked r r' s s'
same_result h = let p = ok-injective h in (ap (λ p. p.0) (sym p), ap (λ p. p.1) (sym p))

capture_node-Captures :
    (n : Node) (r r' : Ref) (s s' : Capturing)
    → capture_node n r s ≡ ok (r', s')
    → Captures n r r' s s'
unfolding capture_node
capture_node-Captures (container c) r r' s s' h = make_capture-Marked _ r r' s s' h
capture_node-Captures (incomplete t) r r' s s' h = same_result h
capture_node-Captures (class_node t) r r' s s' h = same_result h
capture_node-Captures (primitive t) r r' s s' h = same_result h
capture_node-Captures (enum_node t) r r' s s' h = same_result h
capture_node-Captures (array t) r r' s s' h = same_result h
capture_node-Captures (typedef t) r r' s s' h = same_result h
capture_node-Captures (pointer t) r r' s s' h = same_result h
capture_node-Captures (reference t) r r' s s' h = same_result h
capture_node-Captures (dummy t) r r' s s' h = same_result h
capture_node-Captures (dummy_allocator t) r r' s s' h = same_result h
capture_node-Captures (capture_keys t) r r' s s' h = same_result h

of_option-eq-ok : (o : Option Node) (n : Node) → of_option dangling o ≡ ok n → o ≡ some n
of_option-eq-ok none n h = cc
of_option-eq-ok (some m) n h = ap some (ok-injective h)

-- Where `captureKey` returns for a type: if the type behind the typedefs is a container, it gives a
-- new CaptureKeys node above the type itself, with the info of the container in which `captureKeys`
-- is set, and puts that info behind those of the pass; the new node has the size and the alignment
-- of the type and is left alone when it is met again, and every other node and the tracker are as
-- they were. If the type behind the typedefs is anything else, it gives the type itself and changes
-- nothing.
pub capture_key-cases :
    (fuel : ℕ) (r r' : Ref) (s s' : Capturing)
    → capture_key fuel r s ≡ ok (r', s')
    → (t : Ref) × (n : Node) × (strip_typedefs fuel s.graph r ≡ ok t)
      × (deref s.graph t ≡ some n)
      × Captures n r r' s s'
unfolding capture_key
capture_key-cases fuel r r' s s' h =
    let (t, strips, h₁) = >>=-eq-ok (strip_typedefs fuel s.graph r) _ h in
    let (n, found, h₂) = >>=-eq-ok (of_option dangling (deref s.graph t)) _ h₁ in
    (t, n, strips, of_option-eq-ok _ n found, capture_node-Captures n r r' s s' h₂)

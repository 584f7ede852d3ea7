-- ===== src/Compiler/Search/Post.antt =====
-- compiler.py: what a step of the search leaves behind: an exception with a diagnostic, or a later
-- state and a value of which a predicate holds; and the rules by which it goes through a method.
use jev_frame.Prelude.{Bool, true, false, List, [], ◌∷◌, Option, none, some, All, ◌≡◌, refl, ◌≢◌}
use jev_frame.Prelude.Dict.{lookup}
use jev_frame.Errors.{Result, ok, raise, compiler_error}
use jev_frame.Compiler.Diagnostics.{NodeId, Diagnostic, node_eq}
use jev_frame.Compiler.Steps.{
  Setup, Compiling, Compile, ◌>>=◌, pure, gets, modify, choose, by_option, found, for_each,
  fail_with,
}
use jev_frame.Compiler.Search.Invariant.{IsReady, After, After-self, After-trans}

module _ (c : Setup) (within : List NodeId) (guarded : NodeId → Bool) where
  pub data Post {A : Type 0} (s : Compiling) (Q : A → Compiling → Type 0)
      : Result (A × Compiling) → Type 0 where
    returned : (a : A) (t : Compiling) → After c within guarded s t → Q a t → Post s Q (ok (a, t))
    raised : (d : Diagnostic) → Post s Q (raise (compiler_error d))

  pub Post-later :
      {A : Type 0} {Q : A → Compiling → Type 0} (s t : Compiling) (r : Result (A × Compiling))
      → After c within guarded s t
      → Post t Q r
      → Post s Q r
  Post-later s t r a (returned x u b q) = returned x u (After-trans c within guarded s t u a b) q
  Post-later s t r a (raised d) = raised d

  bind_result :
      {A B : Type 0} {P : A → Compiling → Type 0} {Q : B → Compiling → Type 0} (s : Compiling)
      (r : Result (A × Compiling)) (f : A → Compile B)
      → Post s P r
      → ((a : A) (t : Compiling) → After c within guarded s t → P a t → Post t Q (f a t))
      → Post s Q (elim r [ ok (a, t) ↦ f a t | raise e ↦ raise e ])
  bind_result s r f (returned a t b p) k = Post-later s t (f a t) b (k a t b p)
  bind_result s r f (raised d) k = raised d

  pub Post-bind :
      {A B : Type 0} {P : A → Compiling → Type 0} {Q : B → Compiling → Type 0} (s : Compiling)
      (m : Compile A) (f : A → Compile B)
      → Post s P (m s)
      → ((a : A) (t : Compiling) → After c within guarded s t → P a t → Post t Q (f a t))
      → Post s Q ((m >>= f) s)
  unfolding ◌>>=◌
  Post-bind s m f p k = bind_result s (m s) f p k

  pub Post-weaken :
      {A : Type 0} {P Q : A → Compiling → Type 0} (s : Compiling) (r : Result (A × Compiling))
      → Post s P r
      → ((a : A) (t : Compiling) → After c within guarded s t → P a t → Q a t)
      → Post s Q r
  Post-weaken s r (returned a t b p) k = returned a t b (k a t b p)
  Post-weaken s r (raised d) k = raised d

  pub Post-pure :
      {A : Type 0} {Q : A → Compiling → Type 0} (s : Compiling) (a : A)
      → IsReady c within s
      → Q a s
      → Post s Q (pure a s)
  unfolding pure
  Post-pure s a r q = returned a s (After-self c within guarded s r) q

  -- reading the state
  pub Post-read :
      {A B : Type 0} {Q : B → Compiling → Type 0} (s : Compiling) (g : Compiling → A)
      (f : A → Compile B)
      → Post s Q (f (g s) s)
      → Post s Q ((gets g >>= f) s)
  unfolding ◌>>=◌ gets
  Post-read s g f p = p

  pub Post-modify :
      {Q : Unit {0} → Compiling → Type 0} (s : Compiling) (f : Compiling → Compiling)
      → After c within guarded s (f s)
      → Q tt (f s)
      → Post s Q (modify f s)
  unfolding modify
  Post-modify s f a q = returned tt (f s) a q

  pub Post-choose :
      {A : Type 0} {Q : A → Compiling → Type 0} (s : Compiling) (b : Bool) (m k : Compile A)
      → (b ≡ true → Post s Q (m s))
      → (b ≡ false → Post s Q (k s))
      → Post s Q (choose b m k s)
  unfolding choose
  Post-choose s true m k p q = p refl
  Post-choose s false m k p q = q refl

  pub Post-option :
      {A B : Type 0} {Q : B → Compiling → Type 0} (s : Compiling) (o : Option A) (m : Compile B)
      (f : A → Compile B)
      → (o ≡ none → Post s Q (m s))
      → ((a : A) → o ≡ some a → Post s Q (f a s))
      → Post s Q (by_option o m f s)
  unfolding by_option
  Post-option s none m f p q = p refl
  Post-option s (some a) m f p q = q a refl

  pub Post-found :
      {A : Type 0} {Q : A → Compiling → Type 0} (s : Compiling) (o : Option A)
      → IsReady c within s
      → o ≢ none
      → ((a : A) → o ≡ some a → Q a s)
      → Post s Q (found o s)
  unfolding found
  Post-found s none r there q = absurd (there refl)
  Post-found s (some a) r there q = returned a s (After-self c within guarded s r) (q a refl)

  pub Post-fail :
      {A : Type 0} {Q : A → Compiling → Type 0} (s : Compiling) (d : Diagnostic)
      → Post s Q (fail_with {A = A} d s)
  unfolding fail_with
  Post-fail s d = raised d

  -- a loop, with what holds before the rest of it
  pub Post-loop :
      {A B : Type 0} {P : List A → Compiling → Type 0} {Q : B → Compiling → Type 0} (s : Compiling)
      (f : A → Compile B) (xs : List A)
      → ((b : B) (t u : Compiling) → After c within guarded t u → Q b t → Q b u)
      → ((x : A) (rest : List A) (t : Compiling)
          → P (x ∷ rest) t
          → IsReady c within t
          → Post t (λ b u. P rest u × Q b u) (f x t))
      → IsReady c within s
      → P xs s
      → Post s (λ bs t. P [] t × All (λ b. Q b t) bs) (for_each f xs s)
  unfolding for_each
  Post-loop s f [] stays each r p = Post-pure s [] r (p, tt)
  Post-loop {P = P} {Q = Q} s f (x ∷ xs) stays each r p =
      Post-bind s (f x) (λ y. for_each f xs >>= λ ys. pure (y ∷ ys)) (each x xs s p r)
        (λ y t a h.
          Post-bind t (for_each f xs) (λ ys. pure (y ∷ ys))
            (Post-loop {P = P} {Q = Q} t f xs stays each a.ready h.0)
            (λ ys u b k. Post-pure u (y ∷ ys) b.ready (k.0, (stays y t u b h.1, k.1))))

  pub Post-for_each :
      {A B : Type 0} {P : A → Type 0} {Q : B → Compiling → Type 0} (s : Compiling)
      (f : A → Compile B) (xs : List A)
      → ((b : B) (t u : Compiling) → After c within guarded t u → Q b t → Q b u)
      → ((x : A) (t : Compiling) → P x → IsReady c within t → Post t Q (f x t))
      → IsReady c within s
      → All P xs
      → Post s (λ bs t. All (λ b. Q b t) bs) (for_each f xs s)
  Post-for_each {P = P} {Q = Q} s f xs stays each r ps =
      Post-weaken s (for_each f xs s)
        (Post-loop {P = λ rest t. All P rest} {Q = Q} s f xs stays
          (λ x rest t p ready. Post-weaken t (f x t) (each x t p.0 ready) (λ b u a q. (p.1, q))) r
          ps)
        (λ bs t a h. h.1)

-- A step that spares more nodes spares fewer, and its value may say what it spared.
pub Post-relax :
    (c : Setup) (within : List NodeId) (wide narrow : NodeId → Bool) {A : Type 0}
    {Q : A → Compiling → Type 0} (s : Compiling) (r : Result (A × Compiling))
    → ((i : NodeId) → narrow i ≡ true → wide i ≡ true)
    → Post c within wide s Q r
    → Post c within narrow s
        (λ a t. Q a t × ((i : NodeId) → wide i ≡ true → lookup i t.nodes ≡ lookup i s.nodes))
        r
Post-relax c within wide narrow s r w (returned a t b q) =
    returned a t (record { ready = b.ready; kept = b.kept; spared = λ i h. b.spared i (w i h) })
      (q, b.spared)
Post-relax c within wide narrow s r w (raised d) = raised d

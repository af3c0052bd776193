-- ===== src/Inet/Poll.antt =====
-- cpoll: the queue of the objects that are asked whether they leave, one after each wait.
use mathlib.Core.List.{append_assoc, append-nil}
use push1st.Prelude.{
  ap, sym, ◌∙◌, ◌≡◌, Bool-cases, if◌then◌else◌, Bool, List, refl, [], ◌∷◌, inl, inr, ℕ, zero, suc,
  ◌++◌, length,
}

-- What an object answers, where asking it changes the state that the objects share: true if it is
-- still there and does not leave.
module _ {S : Type 0} (stays : S → ℕ → Bool × S) where
  -- cpoll::Gc asks the first object, and puts it back behind the others if it stays.
  unfoldable pub gc_queue : List ℕ → S → List ℕ × S
  gc_queue [] s = ([], s)
  gc_queue (h ∷ q) s = let (b, s') = stays s h in ((if b then q ++ h ∷ [] else q), s')

  unfoldable pub gc_times : ℕ → List ℕ → S → List ℕ × S
  gc_times zero q s = (q, s)
  gc_times (suc n) q s = let (q', s') = gc_queue q s in gc_times n q' s'

  -- EnqueueGc
  unfoldable pub enqueue_gc : ℕ → List ℕ → List ℕ
  enqueue_gc h q = q ++ h ∷ []

  -- All objects of a queue asked once, in their order.
  unfoldable pub ask_all : List ℕ → S → List ℕ × S
  ask_all [] s = ([], s)
  ask_all (h ∷ q) s =
      let (b, s') = stays s h in
      let (left, s'') = ask_all q s' in ((if b then h ∷ left else left), s'')

  gc_times-append :
      (q done : List ℕ) (s : S)
      → gc_times (length q) (q ++ done) s ≡ (done ++ (ask_all q s).0, (ask_all q s).1)
  unfolding gc_times gc_queue ask_all
  gc_times-append [] done s = rw (append-nil done) refl
  gc_times-append (h ∷ q) done s =
      let s' = (stays s h).1 in
      let asked : gc_times (length (h ∷ q)) ((h ∷ q) ++ done) s
          ≡ gc_times (length q) (if (stays s h).0 then (q ++ done) ++ h ∷ [] else q ++ done) s' =
        refl in
      elim (Bool-cases (stays s h).0) [
        | inl t ↦
            let round =
              ap (λ l. gc_times (length q) l s') (append_assoc q done (h ∷ []))
              ∙ gc_times-append q (done ++ h ∷ []) s'
              ∙ ap (λ l. (l, (ask_all q s').1)) (append_assoc done (h ∷ []) (ask_all q s').0) in
            asked
            ∙ ap
                (λ (b : Bool).
                  gc_times (length q) (if b then (q ++ done) ++ h ∷ [] else q ++ done) s')
                t
            ∙ round
            ∙ ap
                (λ (b : Bool). (
                  done ++ (if b then h ∷ (ask_all q s').0 else (ask_all q s').0),
                  (ask_all q s').1,
                ))
                (sym t)
        | inr t ↦
            asked
            ∙ ap
                (λ (b : Bool).
                  gc_times (length q) (if b then (q ++ done) ++ h ∷ [] else q ++ done) s')
                t
            ∙ gc_times-append q done s'
            ∙ ap
                (λ (b : Bool). (
                  done ++ (if b then h ∷ (ask_all q s').0 else (ask_all q s').0),
                  (ask_all q s').1,
                ))
                (sym t)
      ]

  -- As many calls of Gc as the queue has objects ask each of them exactly once, in their order,
  -- whatever they answer and change, and leave those that stay, in their order.
  pub gc_times-ask_all : (q : List ℕ) (s : S) → gc_times (length q) q s ≡ ask_all q s
  gc_times-ask_all q s =
      ap (λ l. gc_times (length q) l s) (sym (append-nil q)) ∙ gc_times-append q [] s

-- ===== src/Taskiq/Started/Closed.antt =====
-- Closing tries every broker and forgets them all.
use python_xtr_messenger.Base.{
  Bool, List, [], ap, append-nil, append_assoc, arith, contains, false, if_pos, ite, nat_eq, not,
  ok, refl, select, sym, true, ℕ, ◌&&◌, ◌++◌, ◌∙◌, ◌∷◌, ◌≟◌, ◌≡◌,
}
use python_xtr_messenger.Errors.{Error}
use python_xtr_messenger.Taskiq.Started.{
  Brokers, Owner, close_all, close_each, discard, grouped, noted,
}

-- An observation of the process: which brokers were shut down, in order.
pub record Shutdowns {S : Type 0} (brokers : Brokers S) : Type 0 where
  pub tried : S → List ℕ
  pub tries : (broker : ℕ) (s : S) → tried (brokers.shutdown broker s).1 ≡ tried s ++ broker ∷ []

contains-discard :
    (broker b : ℕ) (started : List ℕ)
    → contains (discard broker started) b
      ≡ (contains started b && not (ite (broker ≟ b) true false))
unfolding contains discard select
contains-discard broker b [] = refl
contains-discard broker b (c ∷ cs) = ground (arith, contains-discard broker b cs)

all_absent : (bs : List ℕ) → ((b : ℕ) → contains bs b ≡ false) → bs ≡ []
unfolding contains
all_absent [] h = refl
all_absent (b ∷ bs) h = absurd (cc (sym (if_pos (b ≟ b) refl true (contains bs b)) ∙ h b))

absent_step :
    {P : Type 0} (x y : Bool) (d : Dec P)
    → ((x && not (ite d true false)) && not y) ≡ (x && not (ite d true y))
absent_step true y (yes p) = refl
absent_step true y (no p) = refl
absent_step false y d = refl

and_not : (x : Bool) → (x && not x) ≡ false
and_not true = refl
and_not false = refl

module _ {S : Type 0} (brokers : Brokers S) where
  close_each-absent :
      (more : List ℕ) (failures : List Error) (o : Owner S) (b : ℕ)
      → contains (close_each brokers more failures o).1.started b
        ≡ (contains o.started b && not (contains more b))
  unfolding close_each contains
  close_each-absent [] failures o b = ground arith
  close_each-absent (broker ∷ more) failures o b =
      let after : Owner S = record {
        app = (brokers.shutdown broker o.app).1;
        started = discard broker o.started;
      } in
      close_each-absent more (noted brokers failures (brokers.shutdown broker o.app).0) after b
      ∙ ap (λ x. x && not (contains more b)) (contains-discard broker b o.started)
      ∙ absent_step (contains o.started b) (contains more b) (broker ≟ b)

  close_each-tried :
      (v : Shutdowns brokers) (more : List ℕ) (failures : List Error) (o : Owner S)
      → v.tried (close_each brokers more failures o).1.app ≡ v.tried o.app ++ more
  unfolding close_each
  close_each-tried v [] failures o = sym (append-nil (v.tried o.app))
  close_each-tried v (broker ∷ more) failures o =
      close_each-tried v more (noted brokers failures (brokers.shutdown broker o.app).0)
        (record { app = (brokers.shutdown broker o.app).1; started = discard broker o.started })
      ∙ ap (λ t. t ++ more) (v.tries broker o.app)
      ∙ append_assoc (v.tried o.app) (broker ∷ []) more

  grouped-owner : (p : List Error × Owner S) → (grouped brokers p).1 ≡ p.1
  grouped-owner ([], o) = refl
  grouped-owner (e ∷ es, o) = refl

  close_all_none : (o : Owner S) → o.started ≡ [] → close_all brokers o ≡ (ok tt, o)
  unfolding close_all close_each
  close_all_none o h = ap (λ bs. grouped brokers (close_each brokers bs [] o)) h

  -- Closing shuts each broker of the owner down once, in order, whether or not others fail, and
  -- forgets them all, so that closing again shuts none down.
  pub close_all-tried :
      (v : Shutdowns brokers) (o : Owner S)
      → ((close_all brokers o).1.started ≡ [])
        × (v.tried (close_all brokers o).1.app ≡ v.tried o.app ++ o.started)
        × (close_all brokers (close_all brokers o).1 ≡ (ok tt, (close_all brokers o).1))
  unfolding close_all
  close_all-tried v o =
      let result = close_each brokers o.started [] o in
      let owner = grouped-owner result in
      let empty : result.1.started ≡ [] =
        all_absent result.1.started
          (λ b. close_each-absent o.started [] o b ∙ and_not (contains o.started b)) in
      (
        ap (λ x. x.started) owner ∙ empty,
        ap (λ x. v.tried x.app) owner ∙ close_each-tried v o.started [] o,
        close_all_none (close_all brokers o).1 (ap (λ x. x.started) owner ∙ empty),
      )

-- ===== src/Chain/Resolved.antt =====
-- What `resolve` makes of entries that a container built.
use python_xtr_messenger.Base.{
  Dict, Exec, Has, Has-put, Has-put_self, List, Option, Result, String, [], ap, get, map, nat_eq,
  none, ok, put, raise, refl, some, string_eq, subst, suc, true, ℕ, ◌∷◌, ◌≡◌,
}
use python_xtr_messenger.Chain.{
  Builder, Entry, NamedBuilders, Repr, and_rest, builder_named, by_name, entry_arguments, entry_key,
  onto, ready, resolve, resolve_arguments, resolve_from, with_arguments,
}
use python_xtr_messenger.Chain.Container.{
  Located, fetch_all, in_units_of_work, keep_built, middleware_keys, named_from_config, returning,
  yield_key,
}
use python_xtr_messenger.Chain.Layers.{builders_of, find_in, get-builders_of, named_middleware}
use python_xtr_messenger.Errors.{Error}
use python_xtr_messenger.Stamps.{Value}
use python_xtr_messenger.Transport.Sender.{Yields, done, fails, yield}

-- The locator carries every name that is yielded, and none of them raises.
abbrev pub AllCarried : {B M : Type 0} → Located B M → Yields String → Type 0
AllCarried l done = Unit
AllCarried l (fails e) = ⊥
AllCarried l (yield name yielded) = (l.carries name ≡ true) × AllCarried l yielded

module _ {M : Type 0} where
  abbrev pub taken_key : ℕ → Dict String M → Result Error (String × Dict String Value) → Option M
  taken_key ordinal built (raise e) = none
  taken_key ordinal built (ok (name, arguments)) = get (entry_key name ordinal) built

  -- What the container built for each entry, in order.
  abbrev pub taken : Repr → Dict String M → ℕ → List (Entry M) → List (Option M)
  taken r built ordinal [] = []
  taken r built ordinal (by_name name ∷ es) = get name built ∷ taken r built ordinal es
  taken r built ordinal (ready m ∷ es) = some m ∷ taken r built ordinal es
  taken r built ordinal (with_arguments entry ∷ es) =
      taken_key ordinal built (entry_arguments r entry) ∷ taken r built (suc ordinal) es

-- Every yielded name is there.
abbrev pub AllBuilt : {A : Type 0} → Dict String A → Yields String → Type 0
AllBuilt d done = Unit
AllBuilt d (fails e) = ⊥
AllBuilt d (yield name yielded) = Has name d × AllBuilt d yielded

module _ {B M : Type 0} (l : Located B M) where
  -- What was built stays, and each carried name is built.
  abbrev Kept : Dict String M → Yields String → Result Error (Dict String M) × B → Type 0
  Kept d yielded (raise e, s) = Unit
  Kept d yielded (ok built, s) = ((j : String) → Has j d → Has j built) × AllBuilt built yielded

  Kept-fetch_all :
      (yielded : Yields String) (d : Dict String M) (s : B)
      → AllCarried l yielded
      → Kept d yielded (fetch_all l yielded d s)
  unfolding fetch_all
  Kept-fetch_all done d s h = (λ j k. k, tt)
  Kept-fetch_all (fails e) d s h = absurd h
  Kept-fetch_all (yield name yielded) d s h =
      rw (h.0) (go (l.fetch name s) (λ m t. Kept-fetch_all yielded (put name m d) t h.1))
    where
      widen :
          (m : M) (o : Result Error (Dict String M) × B)
          → Kept (put name m d) yielded o
          → Kept d (yield name yielded) o
      widen m (raise e, t) k = tt
      widen m (ok built, t) k =
          (λ j old. k.0 j (Has-put j name m d old), (k.0 name (Has-put_self name m d), k.1))

      go :
          (o : Result Error M × B)
          → ((m : M) (t : B) → Kept (put name m d) yielded (fetch_all l yielded (put name m d) t))
          → Kept d (yield name yielded) (keep_built l name (fetch_all l yielded) d o)
      go (raise e, t) k = tt
      go (ok m, t) k = widen m (fetch_all l yielded (put name m d) t) (k m t)

abbrev AllTaken : {B M : Type 0} → List (Option M) → B → Result Error (List M) × B → Type 0
AllTaken {B} {M} os t o = (ms : List M) × (o ≡ (ok ms, t)) × (map some ms ≡ os)

module _ {B M : Type 0} (r : Repr) (builders : NamedBuilders B M) (built : Dict String M) where
  resolve_next :
      (o : Option M) (os : List (Option M)) (rest : Exec Error B (List M)) (t : B) (m : M)
      → o ≡ some m
      → AllTaken os t (rest t)
      → AllTaken (o ∷ os) t (and_rest rest (ok m, t))
  resolve_next o os rest t m e (ms, f, g) = (m ∷ ms, ap (onto m) f, rw (e, g) refl)

  -- If the builders return what was built, the chain is what was built, and nothing is built again.
  resolve_from-taken :
      ((n : String) (m : M) → get n built ≡ some m → builders.find n ≡ some (returning m))
      → (ordinal : ℕ) (es : List (Entry M)) (t : B) → AllBuilt built (middleware_keys r ordinal es)
      → AllTaken (taken r built ordinal es) t (resolve_from r builders ordinal es t)
  unfolding resolve_from middleware_keys
  resolve_from-taken finds ordinal [] t h = ([], refl, refl)
  resolve_from-taken finds ordinal (ready m ∷ es) t h =
      resolve_next (some m) (taken r built ordinal es) (resolve_from r builders ordinal es) t m refl
        (resolve_from-taken finds ordinal es t h)
  resolve_from-taken finds ordinal (by_name name ∷ es) t ((m, e), h) =
      rw (builder_named, finds name m e)
        (resolve_next (get name built) (taken r built ordinal es)
          (resolve_from r builders ordinal es) t m e (resolve_from-taken finds ordinal es t h))
  resolve_from-taken finds ordinal (with_arguments entry ∷ es) t h =
      go (entry_arguments r entry) h (resolve_from-taken finds (suc ordinal) es t)
    where
      later : Exec Error B (List M)
      later = resolve_from r builders (suc ordinal) es

      go :
          (x : Result Error (String × Dict String Value))
          → AllBuilt built (yield_key ordinal x (middleware_keys r (suc ordinal) es))
          → (AllBuilt built (middleware_keys r (suc ordinal) es)
              → AllTaken (taken r built (suc ordinal) es) t (later t))
          → AllTaken
              (taken_key ordinal built x ∷ taken r built (suc ordinal) es)
              t
              (and_rest later (resolve_arguments builders ordinal x t))
      go (raise e) k ih = absurd k
      go (ok (name, arguments)) ((m, e), k) ih = rw (finds (entry_key name ordinal) m e) (
          resolve_next (get (entry_key name ordinal) built) (taken r built (suc ordinal) es) later t
            m e (ih k))

own-first :
    {B M C : Type 0} (logging : Builder B M) (as_builder : C → Builder B M)
    (classes : Dict String C) (built : Dict String M) (n : String) (m : M)
    → get n built ≡ some m
    → (named_middleware logging (builders_of returning built) as_builder classes).find n
      ≡ some (returning m)
unfolding named_middleware find_in
own-first logging as_builder classes built n m e = rw (get-builders_of returning built n, e) refl

-- If the container carries every named entry of a chain, the chain is the middleware that opens a
-- unit of work, then what the container built for each entry, in order, an entry with arguments
-- under its own key; nothing is built a second time, and nothing is refused.
pub resolve-container :
    {B M C : Type 0} (r : Repr) (logging : Builder B M) (as_builder : C → Builder B M)
    (classes : Dict String C) (l : Located B M) (unit_of_work : M) (entries : List (Entry M))
    (built : Dict String M) (s s' t : B)
    → AllCarried l (middleware_keys r 0 entries)
    → named_from_config r entries l s ≡ (ok built, s')
    → (ms : List M) × (resolve r
          (named_middleware logging (builders_of returning built) as_builder classes)
          (in_units_of_work unit_of_work entries)
          t
        ≡ (ok (unit_of_work ∷ ms), t))
      × (map some ms ≡ taken r built 0 entries)
unfolding named_from_config in_units_of_work resolve_from named_middleware
resolve-container r logging as_builder classes l unit_of_work entries built s s' t all_carried e =
    let builders = named_middleware logging (builders_of returning built) as_builder classes in
    let kept =
      subst (Kept l [] (middleware_keys r 0 entries)) e
        (Kept-fetch_all l (middleware_keys r 0 entries) [] s all_carried) in
    let (ms, f, g) =
      resolve_from-taken r builders built (own-first logging as_builder classes built) 0 entries t
        kept.1 in
    (ms, ap (onto unit_of_work) f, g)

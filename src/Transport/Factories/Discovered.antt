-- ===== src/Transport/Factories/Discovered.antt =====
-- A scheme's factory is discovered at most once.
use python_xtr_messenger.Base.{
  Bool, Dict, Exec, List, Option, Result, String, [], ap, false, get, get-put, if_neg, if_pos, ite,
  nat_eq, none, ok, put, raise, refl, some, string_eq, subst, sym, true, ℕ, ◌∙◌, ◌∷◌, ◌≟◌, ◌≡◌,
}
use python_xtr_messenger.Dsn.{Dsn}
use python_xtr_messenger.Errors.{Error}
use python_xtr_messenger.Transport.Discovery.{EntryPoint, MadeFactory, factory_for}
use python_xtr_messenger.Transport.Factories.{
  Factories, Factory, FactoryWorld, adapter, and_factory, any_supports, cache_of, discover,
  discovered_or, discovering, is_discovered, keep_discovered, known_or, listed_factory,
  no_factories, or_next, remember, serve_first, serve_or, serving_dsn, supports,
}
use python_xtr_messenger.Transport.Serialization.{SerializerInterface}

-- The cache has a factory for the scheme.
abbrev Knows : ℕ → String → ℕ → FactoryWorld → Type 0
Knows c scheme n w = get scheme (cache_of c w) ≡ some n

cache_of-remember :
    (c d : ℕ) (scheme : String) (n : ℕ) (w : FactoryWorld)
    → cache_of d (remember c scheme n w) ≡ ite (c ≟ d) (put scheme n (cache_of c w)) (cache_of d w)
unfolding cache_of
cache_of-remember c d scheme n w =
    go (get d (put c (put scheme n (cache_of c w)) w.caches))
      (get-put d c (put scheme n (cache_of c w)) w.caches)
  where
    cached : Option (Dict String ℕ) → Dict String ℕ
    cached o = elim o [ none ↦ [] | some cache ↦ cache ]

    go :
        (o : Option (Dict String ℕ))
        → o ≡ ite (c ≟ d) (some (put scheme n (cache_of c w))) (get d w.caches)
        → cached o ≡ ite (c ≟ d) (put scheme n (cache_of c w)) (cache_of d w)
    go o e = elim (c ≟ d) [
      | yes same ↦ ap cached (e ∙ if_pos (c ≟ d) same _ _) ∙ sym (if_pos (c ≟ d) same _ _)
      | no other ↦ ap cached (e ∙ if_neg (c ≟ d) other _ _) ∙ sym (if_neg (c ≟ d) other _ _)
    ]

-- What was not known before cannot hide what was.
remember-Knows :
    (c d : ℕ) (scheme other : String) (n m : ℕ) (w : FactoryWorld)
    → get other (cache_of d w) ≡ none
    → Knows c scheme n w
    → Knows c scheme n (remember d other m w)
remember-Knows c d scheme other n m w unknown h = elim (d ≟ c) [
  | yes same ↦
      ap (get scheme) (cache_of-remember d c other m w ∙ if_pos (d ≟ c) same _ _)
      ∙ get-put scheme other m (cache_of d w)
      ∙ elim (other ≟ scheme) [
        | yes e ↦ absurd (clash same e)
        | no f ↦ if_neg (other ≟ scheme) f _ _ ∙ ap (λ x. get scheme (cache_of x w)) same ∙ h
      ]
  | no f ↦ ap (get scheme) (cache_of-remember d c other m w ∙ if_neg (d ≟ c) f _ _) ∙ h
]
  where
    clash : d ≡ c → other ≡ scheme → ⊥
    clash e f =
        cc (
          sym unknown
          ∙ ap (λ x. get x (cache_of d w)) f
          ∙ ap (λ x. get scheme (cache_of x w)) e
          ∙ h)

remember-Knows_self :
    (c : ℕ) (scheme : String) (n : ℕ) (w : FactoryWorld) → Knows c scheme n (remember c scheme n w)
remember-Knows_self c scheme n w =
    ap (get scheme) (cache_of-remember c c scheme n w ∙ if_pos (c ≟ c) refl _ _)
    ∙ get-put scheme scheme n (cache_of c w)
    ∙ if_pos (scheme ≟ scheme) refl _ _

-- What a caller may ask of a factory.
pub data Call : Type 0 where
  supports_call : Factory → Dsn → Call
  serving_call : Factory → String → Dsn → Call

module _ (kinds : ℕ → Dsn → Bool) (entries : List EntryPoint) where
  -- what calls leave, whatever they return or raise
  abbrev pub after_calls : List Call → FactoryWorld → FactoryWorld
  after_calls [] w = w
  after_calls (supports_call f dsn ∷ calls) w = after_calls calls (supports kinds entries f dsn w).1
  after_calls (serving_call f name dsn ∷ calls) w =
      after_calls calls (serving_dsn kinds entries f name dsn w).1

  module _ (c : ℕ) (scheme : String) (n : ℕ) where
    discover-Knows :
        (d : ℕ) (serializer : Option SerializerInterface) (dsn : Dsn) (w : FactoryWorld)
        → Knows c scheme n w
        → Knows c scheme n (discover kinds entries d serializer dsn w).1
    unfolding discover
    discover-Knows d serializer dsn w h = go (get dsn.scheme (cache_of d w)) refl
      where
        keep :
            (o : Result Error (Option ℕ) × List MadeFactory)
            → get dsn.scheme (cache_of d w) ≡ none
            → Knows c scheme n (keep_discovered kinds entries d dsn.scheme w o).1
        keep (raise e, made) e' = h
        keep (ok none, made) e' = h
        keep (ok (some m), made) e' =
            remember-Knows c d scheme dsn.scheme n m (record w { made = made }) e' h

        go :
            (o : Option ℕ)
            → get dsn.scheme (cache_of d w) ≡ o
            → Knows c scheme n (known_or kinds entries d serializer dsn o w).1
        go (some m) e = h
        go none e = keep (factory_for kinds serializer dsn entries w.made) e

    is_discovered-Knows :
        (o : Result Error (Option ℕ) × FactoryWorld)
        → Knows c scheme n o.1
        → Knows c scheme n (is_discovered kinds entries o).1
    is_discovered-Knows (raise e, w) h = h
    is_discovered-Knows (ok none, w) h = h
    is_discovered-Knows (ok (some m), w) h = h

    or_next-Knows :
        (rest : Exec Error FactoryWorld Bool) (o : Result Error Bool × FactoryWorld)
        → Knows c scheme n o.1
        → ((w : FactoryWorld) → Knows c scheme n w → Knows c scheme n (rest w).1)
        → Knows c scheme n (or_next kinds entries rest o).1
    or_next-Knows rest (raise e, w) h k = h
    or_next-Knows rest (ok true, w) h k = h
    or_next-Knows rest (ok false, w) h k = k w h

    discovered_or-Knows :
        (name : String) (dsn : Dsn) (o : Result Error (Option ℕ) × FactoryWorld)
        → Knows c scheme n o.1
        → Knows c scheme n (discovered_or kinds entries name dsn o).1
    discovered_or-Knows name dsn (raise e, w) h = h
    discovered_or-Knows name dsn (ok none, w) h = h
    discovered_or-Knows name dsn (ok (some m), w) h = h

    serve_or-Knows :
        (this others : Exec Error FactoryWorld ℕ) (o : Result Error Bool × FactoryWorld)
        → Knows c scheme n o.1
        → ((w : FactoryWorld) → Knows c scheme n w → Knows c scheme n (this w).1)
        → ((w : FactoryWorld) → Knows c scheme n w → Knows c scheme n (others w).1)
        → Knows c scheme n (serve_or kinds entries this others o).1
    serve_or-Knows this others (raise e, w) h k l = h
    serve_or-Knows this others (ok true, w) h k l = k w h
    serve_or-Knows this others (ok false, w) h k l = l w h

    mutual
      unfolding supports

      supports-Knows :
          (f : Factory) (dsn : Dsn) (w : FactoryWorld)
          → Knows c scheme n w
          → Knows c scheme n (supports kinds entries f dsn w).1
      supports-Knows (adapter m) dsn w h = h
      supports-Knows (listed_factory fs) dsn w h = any_supports-Knows fs dsn w h
      supports-Knows (discovering d serializer) dsn w h =
          is_discovered-Knows (discover kinds entries d serializer dsn w)
            (discover-Knows d serializer dsn w h)

      any_supports-Knows :
          (fs : Factories) (dsn : Dsn) (w : FactoryWorld)
          → Knows c scheme n w
          → Knows c scheme n (any_supports kinds entries fs dsn w).1
      any_supports-Knows no_factories dsn w h = h
      any_supports-Knows (and_factory f fs) dsn w h =
          or_next-Knows (any_supports kinds entries fs dsn) (supports kinds entries f dsn w)
            (supports-Knows f dsn w h) (any_supports-Knows fs dsn)

    mutual
      unfolding serving_dsn

      serving_dsn-Knows :
          (f : Factory) (name : String) (dsn : Dsn) (w : FactoryWorld)
          → Knows c scheme n w
          → Knows c scheme n (serving_dsn kinds entries f name dsn w).1
      serving_dsn-Knows (adapter m) name dsn w h = h
      serving_dsn-Knows (listed_factory fs) name dsn w h = serve_first-Knows fs name dsn w h
      serving_dsn-Knows (discovering d serializer) name dsn w h =
          discovered_or-Knows name dsn (discover kinds entries d serializer dsn w)
            (discover-Knows d serializer dsn w h)

      serve_first-Knows :
          (fs : Factories) (name : String) (dsn : Dsn) (w : FactoryWorld)
          → Knows c scheme n w
          → Knows c scheme n (serve_first kinds entries fs name dsn w).1
      serve_first-Knows no_factories name dsn w h = h
      serve_first-Knows (and_factory f fs) name dsn w h =
          serve_or-Knows (serving_dsn kinds entries f name dsn)
            (serve_first kinds entries fs name dsn) (supports kinds entries f dsn w)
            (supports-Knows f dsn w h) (serving_dsn-Knows f name dsn)
            (serve_first-Knows fs name dsn)

    after_calls-Knows :
        (calls : List Call) (w : FactoryWorld)
        → Knows c scheme n w
        → Knows c scheme n (after_calls calls w)
    after_calls-Knows [] w h = h
    after_calls-Knows (supports_call f dsn ∷ calls) w h =
        after_calls-Knows calls (supports kinds entries f dsn w).1 (supports-Knows f dsn w h)
    after_calls-Knows (serving_call f name dsn ∷ calls) w h =
        after_calls-Knows calls (serving_dsn kinds entries f name dsn w).1
          (serving_dsn-Knows f name dsn w h)

  discovered-Knows :
      (c : ℕ) (serializer : Option SerializerInterface) (dsn : Dsn) (w w' : FactoryWorld) (n : ℕ)
      → discover kinds entries c serializer dsn w ≡ (ok (some n), w')
      → Knows c dsn.scheme n w'
  unfolding discover
  discovered-Knows c serializer dsn w w' n h = go (get dsn.scheme (cache_of c w)) refl h
    where
      kept :
          (o : Result Error (Option ℕ) × List MadeFactory)
          → keep_discovered kinds entries c dsn.scheme w o ≡ (ok (some n), w')
          → Knows c dsn.scheme n w'
      kept (raise e, made) h' = cc (ap (λ o. o.0) h')
      kept (ok none, made) h' = cc (ap (λ o. o.0) h')
      kept (ok (some m), made) h' =
          let same : m ≡ n = cc (ap (λ o. o.0) h') in
          subst (Knows c dsn.scheme n) (ap (λ o. o.1) h') (
            subst (λ x. Knows c dsn.scheme x (remember c dsn.scheme m (record w { made = made })))
              same (remember-Knows_self c dsn.scheme m (record w { made = made })))

      go :
          (o : Option ℕ)
          → get dsn.scheme (cache_of c w) ≡ o
          → known_or kinds entries c serializer dsn o w ≡ (ok (some n), w')
          → Knows c dsn.scheme n w'
      go (some m) e h' =
          let same : m ≡ n = cc (ap (λ o. o.0) h') in
          subst (Knows c dsn.scheme n) (ap (λ o. o.1) h')
            (subst (λ x. get dsn.scheme (cache_of c w) ≡ some x) same e)
      go none e h' = kept (factory_for kinds serializer dsn entries w.made) h'

  -- A scheme's factory is discovered at most once: after it was, asking for the scheme again gives
  -- the same factory and makes none, whatever was asked of any factory in between, and whether that
  -- was answered or raised.
  pub discover-again :
      (c : ℕ) (serializer : Option SerializerInterface) (dsn again : Dsn) (w w' : FactoryWorld)
      (n : ℕ) (calls : List Call)
      → discover kinds entries c serializer dsn w ≡ (ok (some n), w')
      → dsn.scheme ≡ again.scheme
      → discover kinds entries c serializer again (after_calls calls w')
        ≡ (ok (some n), after_calls calls w')
  unfolding discover
  discover-again c serializer dsn again w w' n calls h same =
      let known =
        after_calls-Knows c dsn.scheme n calls w' (discovered-Knows c serializer dsn w w' n h) in
      ap (λ o. known_or kinds entries c serializer again o (after_calls calls w'))
        (ap (λ x. get x (cache_of c (after_calls calls w'))) (sym same) ∙ known)

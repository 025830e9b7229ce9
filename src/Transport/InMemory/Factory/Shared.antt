-- ===== src/Transport/InMemory/Factory/Shared.antt =====
-- Every caller that names a transport holds the same recorder.
use python_xtr_messenger.Base.{
  Dict, Exec, List, Option, Result, String, [], ap, get, get-put, if_neg, if_pos, length, nat_eq,
  none, ok, put, raise, refl, some, string_eq, subst, sym, ℕ, ◌++◌, ◌∙◌, ◌∷◌, ◌≟◌, ◌≡◌,
}
use python_xtr_messenger.Errors.{Error}
use python_xtr_messenger.Transport.InMemory.Factory.{
  FactoryState, and_made, create_in_memory, made_then, new_transport, serializer_for,
  transport_from, transport_named,
}
use python_xtr_messenger.Transport.Serialization.{SerializerInterface}

module _ (serializer : Option SerializerInterface) where
  abbrev Keeps : FactoryState → FactoryState → Type 0
  Keeps s s' = (n : String) (m : ℕ) → get n s.made ≡ some m → get n s'.made ≡ some m

  new_transport-Keeps :
      (name : String) (r : Result Error (Option SerializerInterface)) (s : FactoryState)
      → get name s.made ≡ none
      → Keeps s (new_transport name r s).1
  new_transport-Keeps name (raise e) s g n m h = h
  new_transport-Keeps name (ok o) s g n m h =
      get-put n name (length s.built) s.made ∙ if_neg (name ≟ n) (λ e. cc (e, g, h)) _ _ ∙ h

  new_transport-holds :
      (name : String) (r : Result Error (Option SerializerInterface)) (s s' : FactoryState) (m : ℕ)
      → new_transport name r s ≡ (ok m, s')
      → get name s'.made ≡ some m
  new_transport-holds name (raise e) s s' m h = cc h
  new_transport-holds name (ok o) s s' m h =
      let made : length s.built ≡ m = cc h in
      let left : record { made = put name (length s.built) s.made; built = s.built ++ o ∷ [] }
          ≡ s' =
        ap (λ x. x.1) h in
      ap (λ x. get name x.made) (sym left)
      ∙ get-put name name (length s.built) s.made
      ∙ if_pos (name ≟ name) refl _ _
      ∙ ap some made

  transport_from-Keeps :
      (name : String) (settings : Dict String String) (o : Option ℕ) (s : FactoryState)
      → get name s.made ≡ o
      → Keeps s (transport_from serializer name settings o s).1
  transport_from-Keeps name settings (some made) s g n m h = h
  transport_from-Keeps name settings none s g n m h =
      new_transport-Keeps name (serializer_for serializer settings) s g n m h

  transport_from-holds :
      (name : String) (settings : Dict String String) (o : Option ℕ) (s s' : FactoryState) (m : ℕ)
      → get name s.made ≡ o
      → transport_from serializer name settings o s ≡ (ok m, s')
      → get name s'.made ≡ some m
  transport_from-holds name settings (some made) s s' m g h =
      ap (λ x. get name x.made) (sym (ap (λ x. x.1) h)) ∙ g ∙ ap some (cc h)
  transport_from-holds name settings none s s' m g h =
      new_transport-holds name (serializer_for serializer settings) s s' m h

  made_then-Keeps :
      (name : String) (rest : Exec Error FactoryState (Dict String ℕ))
      (o : Result Error ℕ × FactoryState)
      → ((s : FactoryState) → Keeps s (rest s).1)
      → Keeps o.1 (made_then name rest o).1
  made_then-Keeps name rest (raise e, s) k n m h = h
  made_then-Keeps name rest (ok made, s) k n m h = go (rest s) (k s n m h)
    where
      go :
          (o : Result Error (Dict String ℕ) × FactoryState)
          → get n o.1.made ≡ some m
          → get n (and_made name made o).1.made ≡ some m
      go (ok d, s') h' = h'
      go (raise e, s') h' = h'

  create-Keeps :
      (group : List (String × Dict String String)) (s : FactoryState)
      → Keeps s (create_in_memory serializer group s).1
  unfolding create_in_memory transport_named
  create-Keeps [] s n m h = h
  create-Keeps ((name, settings) ∷ group) s n m h =
      made_then-Keeps name (create_in_memory serializer group)
        (transport_named serializer name settings s) (create-Keeps group) n m
        (transport_from-Keeps name settings (get name s.made) s refl n m h)

  -- A factory that has the transports `d` for the group.
  abbrev Has : List (String × Dict String String) → Dict String ℕ → FactoryState → Type 0
  Has [] [] s = Unit
  Has [] (p ∷ d) s = ⊥
  Has (c ∷ group) [] s = ⊥
  Has ((name, settings) ∷ group) ((n, m) ∷ d) s =
      (name ≡ n) × (get name s.made ≡ some m) × Has group d s

  create-Has :
      (group : List (String × Dict String String)) (d : Dict String ℕ) (s : FactoryState)
      → Has group d s
      → create_in_memory serializer group s ≡ (ok d, s)
  unfolding create_in_memory transport_named
  create-Has [] [] s h = refl
  create-Has [] (p ∷ d) s h = absurd h
  create-Has (c ∷ group) [] s h = absurd h
  create-Has ((name, settings) ∷ group) ((n, m) ∷ d) s (e, g, hs) =
      ap
        (λ o.
          made_then name (create_in_memory serializer group)
            (transport_from serializer name settings o s))
        g
      ∙ ap (and_made name m) (create-Has group d s hs)
      ∙ ap (λ x. (ok ((x, m) ∷ d), s)) e

  and_made_ok :
      (name : String) (m : ℕ) (o : Result Error (Dict String ℕ) × FactoryState) (d : Dict String ℕ)
      (s' : FactoryState)
      → and_made name m o ≡ (ok d, s')
      → (d' : Dict String ℕ) × (o ≡ (ok d', s')) × (d ≡ (name, m) ∷ d')
  and_made_ok name m (raise e, s) d s' h = cc h
  and_made_ok name m (ok d', s) d s' h = (d', ap (λ x. (ok d', x.1)) h, cc h)

  made_then_ok :
      (name : String) (rest : Exec Error FactoryState (Dict String ℕ))
      (o : Result Error ℕ × FactoryState) (d : Dict String ℕ) (s' : FactoryState)
      → made_then name rest o ≡ (ok d, s')
      → (m : ℕ) × (s : FactoryState) × (d' : Dict String ℕ) × (o ≡ (ok m, s))
        × (rest s ≡ (ok d', s'))
        × (d ≡ (name, m) ∷ d')
  made_then_ok name rest (raise e, s) d s' h = cc h
  made_then_ok name rest (ok m, s) d s' h =
      let (d', e, f) = and_made_ok name m (rest s) d s' h in (m, s, d', refl, e, f)

  Has-create :
      (group : List (String × Dict String String)) (d : Dict String ℕ) (s s' : FactoryState)
      → create_in_memory serializer group s ≡ (ok d, s')
      → Has group d s'
  unfolding create_in_memory transport_named
  Has-create [] d s s' h = subst (λ x. Has [] x s') {x = []} (cc h) tt
  Has-create ((name, settings) ∷ group) d s s' h =
      let (m, s1, d', o, e, f) =
        made_then_ok name (create_in_memory serializer group)
          (transport_named serializer name settings s) d s' h in
      let now = transport_from-holds name settings (get name s.made) s s1 m refl o in
      let then_ = create-Keeps group s1 name m now in
      subst (λ x. Has ((name, settings) ∷ group) x s') (sym f)
        (refl, subst (λ x. get name x.1.made ≡ some m) e then_, Has-create group d' s1 s' e)

  Has-Keeps :
      (group : List (String × Dict String String)) (d : Dict String ℕ) (s s' : FactoryState)
      → Keeps s s'
      → Has group d s
      → Has group d s'
  Has-Keeps [] [] s s' k h = tt
  Has-Keeps [] (p ∷ d) s s' k h = h
  Has-Keeps (c ∷ group) [] s s' k h = h
  Has-Keeps ((name, settings) ∷ group) ((n, m) ∷ d) s s' k (e, g, h) =
      (e, k name m g, Has-Keeps group d s s' k h)

  -- Transports are made once for each name: after a group was created, creating it again gives the
  -- same transports and makes none, whatever other groups were created, or refused, in between.
  pub create_in_memory-again :
      (group other : List (String × Dict String String)) (d : Dict String ℕ) (s s' : FactoryState)
      → create_in_memory serializer group s ≡ (ok d, s')
      → create_in_memory serializer group (create_in_memory serializer other s').1
        ≡ (ok d, (create_in_memory serializer other s').1)
  create_in_memory-again group other d s s' h =
      create-Has group d (create_in_memory serializer other s').1 (
        Has-Keeps group d s' (create_in_memory serializer other s').1 (create-Keeps other s')
          (Has-create group d s s' h))

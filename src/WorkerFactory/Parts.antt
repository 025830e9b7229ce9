-- ===== src/WorkerFactory/Parts.antt =====
-- `_by_connection`: the transports of a worker, split by the server that each addresses.
use python_xtr_messenger.Base.{
  Dict, Option, Result, String, [], ap, get, get-put, if_neg, if_pos, ite, none, ok, put, raise,
  refl, some, string_eq, sym, ◌∙◌, ◌∷◌, ◌≟◌, ◌≡◌,
}
use python_xtr_messenger.Config.{TransportConfig}
use python_xtr_messenger.Errors.{Error}
use python_xtr_messenger.WorkerFactory.{
  Configured, add_by, add_part, by_connection, part_of, parts_from,
}

part_of-some :
    (c : String) (parts : Dict String Configured) (p : Configured)
    → get c parts ≡ some p
    → part_of c parts ≡ p
unfolding part_of
part_of-some c parts p e = rw (e, part_of) refl

part_of-get :
    (c : String) (parts others : Dict String Configured)
    → get c parts ≡ get c others
    → part_of c parts ≡ part_of c others
unfolding part_of
part_of-get c parts others e = rw (e, part_of) refl

-- One transport more, in the part of its server and in no other.
abbrev with_one :
    String
    → String
    → String
    → String
    → TransportConfig
    → Option TransportConfig
    → Option TransportConfig
with_one c d name n config o = ite (d ≟ c) (ite (name ≟ n) (some config) o) o

get-add_part :
    (c d name n : String) (config : TransportConfig) (parts : Dict String Configured)
    → get n (part_of c (add_part d name config parts))
      ≡ with_one c d name n config (get n (part_of c parts))
unfolding add_part
get-add_part c d name n config parts = elim (d ≟ c) [
  | yes e ↦
      ap (get n) (
        part_of-some c (add_part d name config parts) (put name config (part_of d parts))
          (get-put c d (put name config (part_of d parts)) parts ∙ if_pos (d ≟ c) e _ _))
      ∙ get-put n name config (part_of d parts)
      ∙ ap (λ x. ite (name ≟ n) (some config) (get n (part_of x parts))) e
      ∙ sym (if_pos (d ≟ c) e _ _)
  | no f ↦
      ap (get n) (
        part_of-get c (add_part d name config parts) parts
          (get-put c d (put name config (part_of d parts)) parts ∙ if_neg (d ≟ c) f _ _))
      ∙ sym (if_neg (d ≟ c) f _ _)
]

module _ (connection : TransportConfig → Result Error String) where
  -- What a group has under a name, among its transports on one server.
  abbrev pub on_server :
      String
      → String
      → Result Error String
      → String
      → TransportConfig
      → Option TransportConfig
      → Option TransportConfig
  on_server c n (raise e) name config o = o
  on_server c n (ok d) name config o = with_one c d name n config o

  abbrev pub served_by :
      String → String → Configured → Option TransportConfig → Option TransportConfig
  served_by c n [] o = o
  served_by c n ((name, config) ∷ group) o =
      served_by c n group (on_server c n (connection config) name config o)

  add_by-served_by :
      (c n name : String) (config : TransportConfig) (group : Configured) (r : Result Error String)
      (acc parts : Dict String Configured)
      → ((acc' : Dict String Configured)
          → parts_from connection group acc' ≡ ok parts
          → get n (part_of c parts) ≡ served_by c n group (get n (part_of c acc')))
      → add_by connection (parts_from connection group) name config r acc ≡ ok parts
      → get n (part_of c parts)
        ≡ served_by c n group (on_server c n r name config (get n (part_of c acc)))
  add_by-served_by c n name config group (raise e) acc parts ih h = cc h
  add_by-served_by c n name config group (ok d) acc parts ih h =
      ih (add_part d name config acc) h
      ∙ ap (served_by c n group) (get-add_part c d name n config acc)

  parts_from-served_by :
      (c n : String) (group : Configured) (acc parts : Dict String Configured)
      → parts_from connection group acc ≡ ok parts
      → get n (part_of c parts) ≡ served_by c n group (get n (part_of c acc))
  unfolding parts_from
  parts_from-served_by c n [] acc parts h = ap (λ x. get n (part_of c x)) (sym (cc h))
  parts_from-served_by c n ((name, config) ∷ group) acc parts h =
      add_by-served_by c n name config group (connection config) acc parts
        (λ acc'. parts_from-served_by c n group acc' parts) h

  -- A worker's transports are split by server: under each server stand exactly the transports whose
  -- DSN addresses it, each under its name.
  pub by_connection-served_by :
      (group : Configured) (parts : Dict String Configured)
      → by_connection connection group ≡ ok parts
      → (c n : String) → get n (part_of c parts) ≡ served_by c n group none
  unfolding part_of get
  by_connection-served_by group parts h c n = parts_from-served_by c n group [] parts h

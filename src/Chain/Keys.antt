-- ===== src/Chain/Keys.antt =====
-- `entry_key`: what tells the middlewares with arguments apart.
use Prim.Native.Char.{Char}
use text.Mathlib.TextLemmas.{nil-append, cons-append}
use python_xtr_messenger.Base.{
  IsDigits, String, ap, append_cancel, arith, decimal, decimal-IsDigits, decimal-injective, nat_eq,
  refl, string_eq, subst, sym, ℕ, ◌+++◌, ◌∙◌, ◌≡◌,
}
use python_xtr_messenger.Chain.{entry_key}

hash_append : (d : String) → "#" +++ d ≡ String.◌∷◌ "#" d
hash_append d = cons-append "#" "" d ∙ ap (String.◌∷◌ "#") (nil-append d)

hash_in : (s d : String) → IsDigits (s +++ "#" +++ d) → ⊥
hash_in String.[] d h =
    let k : IsDigits (String.◌∷◌ "#" d) =
      subst IsDigits (nil-append ("#" +++ d) ∙ hash_append d) h in
    absurd (omega (arith, k.0))
hash_in (String.◌∷◌ c s) d h = hash_in s d (subst IsDigits (cons-append c s ("#" +++ d)) h).2

tail_eq : (c c' : Char) (s t : String) → String.◌∷◌ c s ≡ String.◌∷◌ c' t → s ≡ t
tail_eq c c' s t h = cc h

head_eq : (c c' : Char) (s t : String) → String.◌∷◌ c s ≡ String.◌∷◌ c' t → c ≡ c'
head_eq c c' s t h = cc h

-- Digits behind the first "#" hold no other.
hash_behind :
    (c : Char) (t d e : String) → IsDigits d → "" +++ "#" +++ d ≡ (String.◌∷◌ c t) +++ "#" +++ e → ⊥
hash_behind c t d e hd h = hash_in t e (
    subst IsDigits
      (tail_eq "#" c d (t +++ "#" +++ e)
        (sym (nil-append ("#" +++ d) ∙ hash_append d) ∙ h ∙ cons-append c t ("#" +++ e)))
      hd)

-- A text that ends in "#" and digits is cut in one way.
cut_hash :
    (s t d e : String)
    → IsDigits d
    → IsDigits e
    → s +++ "#" +++ d ≡ t +++ "#" +++ e
    → (s ≡ t) × (d ≡ e)
cut_hash String.[] String.[] d e hd he h =
    (refl, append_cancel "#" d e (append_cancel "" ("#" +++ d) ("#" +++ e) h))
cut_hash String.[] (String.◌∷◌ c t) d e hd he h = absurd (hash_behind c t d e hd h)
cut_hash (String.◌∷◌ c s) String.[] d e hd he h = absurd (hash_behind c s e d he (sym h))
cut_hash (String.◌∷◌ c s) (String.◌∷◌ c' t) d e hd he h =
    let h' : String.◌∷◌ c (s +++ "#" +++ d) ≡ String.◌∷◌ c' (t +++ "#" +++ e) =
      sym (cons-append c s ("#" +++ d)) ∙ h ∙ cons-append c' t ("#" +++ e) in
    let rest = cut_hash s t d e hd he (tail_eq c c' (s +++ "#" +++ d) (t +++ "#" +++ e) h') in
    (cc (head_eq c c' (s +++ "#" +++ d) (t +++ "#" +++ e) h', rest.0), rest.1)

-- Two entries with arguments are registered under one key only if they give arguments to one name
-- at one place, even if names hold "#" themselves.
pub entry_key-injective :
    (name other : String) (m n : ℕ)
    → entry_key name m ≡ entry_key other n
    → (name ≡ other) × (m ≡ n)
unfolding entry_key
entry_key-injective name other m n h =
    let cut =
      cut_hash name other (decimal m) (decimal n) (decimal-IsDigits m) (decimal-IsDigits n) h in
    (cut.0, decimal-injective m n cut.1)

-- ===== src/Urlcoder/Arguments.antt =====
-- Argument lists: what `url_encode_arguments` builds up, `url_decode_arguments` takes apart.
use ulppk.Base.{ℕ, ◌≡◌, refl, ap, ◌∙◌}
use ulppk.Base.{true, false, ◌==◌, List, [], ◌∷◌, ◌++◌, some}
use ulppk.Base.{All, append_assoc, append-nil}
use ulppk.Urlcoder.{Arguments}
use ulppk.Urlcoder.{add_name_value, scan_arguments}

-- A name without `=`, a value without `&`.
abbrev pub IsName : List ℕ → Type 0
IsName = All (λ c. (c == b'=') ≡ false)

abbrev pub NoAmp : List ℕ → Type 0
NoAmp = All (λ c. (c == b'&') ≡ false)

-- A name up to its `=`: the character behind that starts the value.
pub scan-name :
    (n name val : List ℕ) (d : ℕ) (listp : Arguments) (cp : List ℕ)
    → IsName n
    → scan_arguments false name val listp (n ++ b'=' ∷ d ∷ cp)
      ≡ scan_arguments true (name ++ n) (val ++ d ∷ []) listp cp
unfolding scan_arguments
scan-name [] name val d listp cp h = rw append-nil
scan-name (c ∷ []) name val d listp cp h = rw h.0 (
    scan-name [] (name ++ c ∷ []) val d listp cp tt
    ∙ ap (λ x. scan_arguments true x (val ++ d ∷ []) listp cp) (append_assoc name (c ∷ []) []))
scan-name (c ∷ e ∷ n) name val d listp cp h = rw h.0 (
    scan-name (e ∷ n) (name ++ c ∷ []) val d listp cp h.1
    ∙ ap (λ x. scan_arguments true x (val ++ d ∷ []) listp cp) (append_assoc name (c ∷ []) (e ∷ n)))

-- A value up to the `&` behind it, with something following.
pub scan-value :
    (w name val : List ℕ) (e : ℕ) (listp : Arguments) (cp : List ℕ)
    → NoAmp w
    → scan_arguments true name val listp (w ++ b'&' ∷ e ∷ cp)
      ≡ scan_arguments false [] [] (add_name_value listp name (val ++ w)) (e ∷ cp)
unfolding scan_arguments
scan-value [] name val e listp cp h = rw append-nil
scan-value (c ∷ []) name val e listp cp h = rw h.0 (
    scan-value [] name (val ++ c ∷ []) e listp cp tt
    ∙ ap (λ x. scan_arguments false [] [] (add_name_value listp name x) (e ∷ cp))
        (append_assoc val (c ∷ []) []))
scan-value (c ∷ f ∷ w) name val e listp cp h = rw h.0 (
    scan-value (f ∷ w) name (val ++ c ∷ []) e listp cp h.1
    ∙ ap (λ x. scan_arguments false [] [] (add_name_value listp name x) (e ∷ cp))
        (append_assoc val (c ∷ []) (f ∷ w)))

-- The last value, up to the end.
pub scan-last :
    (w name val : List ℕ) (c : ℕ) (listp : Arguments)
    → NoAmp w
    → scan_arguments true name val listp (w ++ c ∷ [])
      ≡ some (add_name_value listp name (val ++ (w ++ c ∷ [])))
unfolding scan_arguments
scan-last [] name val c listp h = refl
scan-last (b ∷ []) name val c listp h = rw h.0 (
    scan-last [] name (val ++ b ∷ []) c listp tt
    ∙ ap (λ x. some (add_name_value listp name x)) (append_assoc val (b ∷ []) (c ∷ [])))
scan-last (b ∷ f ∷ w) name val c listp h = rw h.0 (
    scan-last (f ∷ w) name (val ++ b ∷ []) c listp h.1
    ∙ ap (λ x. some (add_name_value listp name x)) (append_assoc val (b ∷ []) (f ∷ w ++ c ∷ [])))

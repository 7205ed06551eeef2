-- ===== src/Metadata/Missing.antt =====
-- src/metadata.rs, `get_missing_ids`: which ids are missing.
use mathlib.Core.List.{Perm, Permᴰ}
use mathlib.Core.Logic.{∥∥₁_elim}
use mathlib.Core.Bool.{Bool-set}
use outpack_server.Io.FilePath.{FilePath}
use outpack_server.Io.Fs.{Fs}
use outpack_server.Metadata.Ids.{get_ids, get_missing_ids, get_valid_id, text_set}
use outpack_server.Prelude.{
  Bool, Bool-cases, List, Text, [], arith, contains, inl, inr, keep, list_eq, map, nat_eq, not,
  refl, trim, ◌&&◌, ◌∙◌, ◌∷◌, ◌≡◌,
}
use outpack_server.Result.{>>=-eq-ok, collect, ok}
use outpack_server.Utils.{is_packet_str}

contains-Permᴰ : {a b : List Text} → Permᴰ a b → (t : Text) → contains a t ≡ contains b t
contains-Permᴰ Permᴰ.nil t = refl
contains-Permᴰ (Permᴰ.cons {a = x} {b = y} e h) t = rw (e, contains-Permᴰ h t)
contains-Permᴰ (Permᴰ.swap {a = x} {b = y} {a' = z} {b' = w} {l = l} e d) t =
    rw (e, d) (ground arith)
contains-Permᴰ (Permᴰ.trans h k) t = contains-Permᴰ h t ∙ contains-Permᴰ k t

contains-perm : {a b : List Text} → Perm a b → (t : Text) → contains a t ≡ contains b t
contains-perm h t = ∥∥₁_elim h (Bool-set _ _) (λ k. contains-Permᴰ k t)

contains-text_set : (ts : List Text) (t : Text) → contains (text_set ts) t ≡ contains ts t
unfolding text_set
contains-text_set [] t = refl
contains-text_set (x ∷ ts) t = ground (arith, contains-text_set ts t, contains-text_set ts x)

contains-keep :
    (known l : List Text) (t : Text)
    → contains (keep (λ x. not (contains known x)) l) t ≡ (contains l t && not (contains known t))
contains-keep known [] t = refl
contains-keep known (x ∷ l) t = ground (arith, contains-keep known l t)

get_valid_id-eq-ok : (w t : Text) → get_valid_id w ≡ ok t → t ≡ trim w
unfolding get_valid_id
get_valid_id-eq-ok w t e = elim (Bool-cases (is_packet_str (trim w))) [
  | inl h ↦ cc (rw h at e)
  | inr h ↦ absurd (cc (rw h at e))
]

-- Ids that are all valid are taken with the white space about them removed.
collect-get_valid_id :
    (wanted valid : List Text) → collect get_valid_id wanted ≡ ok valid → valid ≡ map trim wanted
unfolding collect
collect-get_valid_id [] valid e = cc
collect-get_valid_id (w ∷ wanted) valid e =
    let (t, d, e1) = >>=-eq-ok (get_valid_id w) _ e in
    let (rest, k, e2) = >>=-eq-ok (collect get_valid_id wanted) _ e1 in
    cc (e2, get_valid_id-eq-ok w t d, collect-get_valid_id wanted rest k)

-- Where `get_missing_ids` succeeds, an id is reported exactly when it is wanted, but for white
-- space about it, and the repository does not know it; the order of the walk plays no part.
pub get_missing_ids-contains :
    (walk : List Text → List Text) (fs : Fs) (root : FilePath) (wanted : List Text)
    (unpacked : Bool) (known missing : List Text)
    → ((ts : List Text) → Perm (walk ts) ts)
    → get_ids fs root unpacked ≡ ok known
    → get_missing_ids walk fs root wanted unpacked ≡ ok missing
    → (id : Text) → contains missing id ≡ (contains (map trim wanted) id && not (contains known id))
unfolding get_missing_ids
get_missing_ids-contains walk fs root wanted unpacked known missing h k e id =
    let (valid, d, same) = >>=-eq-ok (collect get_valid_id wanted) _ (rw k at e) in
    let asked = keep (λ i. not (contains known i)) (text_set valid) in
    let listed : walk asked ≡ missing = ground arith in
    rw
      (
        ← listed,
        contains-perm (h asked) id,
        contains-keep known (text_set valid) id,
        contains-text_set valid id,
        collect-get_valid_id wanted valid d,
      )
      refl

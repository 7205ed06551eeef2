-- ===== src/Io/Binds.antt =====
-- What holds after a step that is followed by another.
use outpack_server.Io.Fs.{Fs, Io, IoError, IoResult, reads, ◌>>=◌, ◌>>◌}
use outpack_server.Prelude.{[], ap, refl, ◌≡◌}
use outpack_server.Result.{err, ok, panicked}

module _ {ℓ ℓ'} {A : Type ℓ} {B : Type ℓ'} (f : A → Io B) where
  constant_after {κ} :
      (Q : Fs → Type κ) (r : IoResult A × Fs)
      → Q r.1
      → ((a : A) → r.0 ≡ ok a → Q (f a r.1).1)
      → Q (((λ _. r) >>= f) []).1
  constant_after Q (ok a, fs') g h = h a refl
  constant_after Q (err x, fs') g h = g
  constant_after Q (panicked, fs') g h = g

  -- What holds after the first step, and after the second where it is taken.
  pub >>=-after {κ} :
      (Q : Fs → Type κ) (m : Io A) (fs : Fs)
      → Q (m fs).1
      → ((a : A) → (m fs).0 ≡ ok a → Q (f a (m fs).1).1)
      → Q ((m >>= f) fs).1
  >>=-after Q m fs g h = constant_after Q (m fs) g h

  -- Two steps that succeed: the first does, and the second from where that ends.
  abbrev BothOk : IoResult A × Fs → IoResult B × Fs → B → Type (ℓ ⊔ ℓ')
  BothOk r s b = (a : A) × (r.0 ≡ ok a) × ((f a r.1).0 ≡ ok b) × (s.1 ≡ (f a r.1).1)

  constant-eq-ok :
      (r : IoResult A × Fs) {b : B}
      → (((λ _. r) >>= f) []).0 ≡ ok b
      → BothOk r (((λ _. r) >>= f) []) b
  constant-eq-ok (ok a, fs') e = (a, refl, e, refl)
  constant-eq-ok (err x, fs') e = cc
  constant-eq-ok (panicked, fs') e = cc

  pub >>=-run-eq-ok :
      (m : Io A) (fs : Fs) {b : B} → ((m >>= f) fs).0 ≡ ok b → BothOk (m fs) ((m >>= f) fs) b
  >>=-run-eq-ok m fs e = constant-eq-ok (m fs) e

module _ {ℓ} {B : Type ℓ} (check : Fs → IoResult (Unit {0})) (next : Io B) (fs : Fs) where
  -- A check that fails ends the chain, and the disk stays as it is.
  pub reads-fails : {x : IoError} → check fs ≡ err x → (reads check >> next) fs ≡ (err x, fs)
  reads-fails e = ap (λ r. ((λ fs'. (r, fs')) >> next) fs) e

  pub reads-passes : check fs ≡ ok tt → (reads check >> next) fs ≡ next fs
  reads-passes e = ap (λ r. ((λ fs'. (r, fs')) >> next) fs) e

-- ===== src/Error.antt =====
-- src/error.rs: the error type, its conversions, and `Result`. The error types of other crates are
-- parameters.
pub mod Display
use etcd_client.Prelude.{String, ◌≡◌, refl, ◌⊎◌, inl, inr, Bool}

-- The error types that the variants wrap, with what the client asks of a gRPC status:
-- `status.code() == Code::Unauthenticated`.
pub record Foreign : Type 1 where
  pub InvalidUri : Type 0
  pub IoError : Type 0
  pub TransportError : Type 0
  pub Status : Type 0
  pub Utf8Error : Type 0
  pub InvalidMetadataValue : Type 0
  pub ErrorStack : Type 0
  pub is_unauthenticated : Status → Bool

pub data Error (F : Foreign) : Type 0 where
  invalid_args : String → Error F
  invalid_uri : F.InvalidUri → Error F
  io_error : F.IoError → Error F
  transport_error : F.TransportError → Error F
  grpc_status : F.Status → Error F
  watch_error : String → Error F
  utf8_error : F.Utf8Error → Error F
  lease_keep_alive_error : String → Error F
  elect_error : String → Error F
  invalid_metadata_value : F.InvalidMetadataValue → Error F
  endpoint_error : String → Error F
  endpoints_not_managed : Error F
  open_ssl : F.ErrorStack → Error F
  internal : String → Error F

pub data Result (F : Foreign) (A : Type 0) : Type 0 where
  ok : A → Result F A
  err : Error F → Result F A

module _ {F : Foreign} {A : Type 0} where
  abbrev pub is_ok : Result F A → Bool
  is_ok (ok a) = Bool.true
  is_ok (err e) = Bool.false

  pub Result-cases : (r : Result F A) → ((a : A) × (r ≡ ok a)) ⊎ ((e : Error F) × (r ≡ err e))
  Result-cases (ok a) = inl (a, refl)
  Result-cases (err e) = inr (e, refl)

module _ {F : Foreign} {A B : Type 0} where
  infixl 10 ◌>>=◌
  abbrev pub ◌>>=◌ : Result F A → (A → Result F B) → Result F B
  ok a >>= f = f a
  err e >>= f = err e

pub eq_of_ok : {F : Foreign} {A : Type 0} {a b : A} → ◌≡◌ {A = Result F A} (ok a) (ok b) → a ≡ b
eq_of_ok e = cc

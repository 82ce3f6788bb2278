-- ===== src/OpenSsl/Config.antt =====
-- What the calls on a configuration make of it.
use etcd_client.Prelude.{
  ◌≡◌, refl, ap, ◌∙◌, Bool, true, false, inl, inr, List, [], ◌∷◌, is_empty, if◌then◌else◌,
}
use etcd_client.Bytes.{Bytes}
use etcd_client.Error.{Foreign}
use etcd_client.OpenSsl.{
  OpenSslResult, OpenSsl, OpenSslClientConfig, chain, manually, ca_cert_pem,
  client_cert_pem_and_key, build_connector, add_ca, add_client,
}

module _ {F : Foreign} (o : OpenSsl F) where
  pub data Call : Type 0 where
    manual : (f : o.Builder → OpenSslResult F o.Builder) → Call
    ca : (s : Bytes) → Call
    client : (cert_pem key_pem : Bytes) → Call

  abbrev pub apply : Call → OpenSslClientConfig o → OpenSslClientConfig o
  apply (manual f) self = manually o f self
  apply (ca s) self = ca_cert_pem o s self
  apply (client cert_pem key_pem) self = client_cert_pem_and_key o cert_pem key_pem self

  -- The calls in order.
  abbrev pub apply_all : List Call → OpenSslClientConfig o → OpenSslClientConfig o
  apply_all [] self = self
  apply_all (call ∷ calls) self = apply_all calls (apply call self)

  -- What a call does to a builder: nothing when it has no text to read.
  abbrev pub effect : Call → o.Builder → OpenSslResult F o.Builder
  effect (manual f) b = f b
  effect (ca s) b = if is_empty s then inr b else add_ca o s b
  effect (client cert_pem key_pem) b =
      if is_empty cert_pem
      then inr b
      else if is_empty key_pem
      then inr b
      else add_client o cert_pem key_pem b

  -- The effects in order, up to the first error.
  abbrev pub effects : List Call → o.Builder → OpenSslResult F o.Builder
  effects [] b = inr b
  effects (call ∷ calls) b = chain (effect call b) (effects calls)

  keep_if : (b : Bool) (x : OpenSslClientConfig o) → (if b then x else x) ≡ x
  keep_if true x = refl
  keep_if false x = refl

  apply_failed : (call : Call) (e : F.ErrorStack) → apply call (inl e) ≡ inl e
  unfolding manually ca_cert_pem client_cert_pem_and_key
  apply_failed (manual f) e = refl
  apply_failed (ca s) e = keep_if (is_empty s) (inl e)
  apply_failed (client cert_pem key_pem) e =
      ap (λ c. if is_empty cert_pem then inl e else c) (keep_if (is_empty key_pem) (inl e))
      ∙ keep_if (is_empty cert_pem) (inl e)

  apply_builder : (call : Call) (b : o.Builder) → apply call (inr b) ≡ effect call b
  unfolding manually ca_cert_pem client_cert_pem_and_key
  apply_builder (manual f) b = refl
  apply_builder (ca s) b = refl
  apply_builder (client cert_pem key_pem) b = refl

  apply_all_failed : (calls : List Call) (e : F.ErrorStack) → apply_all calls (inl e) ≡ inl e
  apply_all_failed [] e = refl
  apply_all_failed (call ∷ calls) e =
      ap (apply_all calls) (apply_failed call e) ∙ apply_all_failed calls e

  apply_all-eq-effects :
      (calls : List Call) (b : o.Builder) → apply_all calls (inr b) ≡ effects calls b
  apply_all-eq-effects [] b = refl
  apply_all-eq-effects (call ∷ calls) b =
      ap (apply_all calls) (apply_builder call b)
      ∙ rest (effect call b) (apply_all-eq-effects calls)
    where
      rest :
          (r : OpenSslResult F o.Builder)
          → ((c : o.Builder) → apply_all calls (inr c) ≡ effects calls c)
          → apply_all calls r ≡ chain r (effects calls)
      rest (inl e) same = apply_all_failed calls e
      rest (inr c) same = same c

  -- A configuration that is built after any calls gives what one pass over its builder gives: the
  -- effects of the calls in order up to the first error, which is returned, then the connector. A
  -- call with an empty text does nothing, and a configuration that has failed stays as it is.
  pub build_connector-apply_all :
      (calls : List Call) (self : OpenSslClientConfig o)
      → build_connector o (apply_all calls self)
        ≡ chain self (λ b. chain (effects calls b) o.with_connector)
  unfolding build_connector
  build_connector-apply_all calls (inl e) =
      ap (λ r. chain r o.with_connector) (apply_all_failed calls e)
  build_connector-apply_all calls (inr b) =
      ap (λ r. chain r o.with_connector) (apply_all-eq-effects calls b)

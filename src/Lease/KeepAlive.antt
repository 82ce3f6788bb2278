-- ===== src/Lease/KeepAlive.antt =====
-- When `keep_alive` gives a keeper, and what the namespace's `time_to_live` leaves in the keys.
use etcd_client.Prelude.{
  ℤ, is_nonpositive, ◌≡◌, refl, sym, subst, ◌∙◌, ap, Bool, false, Option, none, some, List, ◌∷◌,
  ◌++◌, map, map-append, arith, inl, inr, Bool-cases,
}
use etcd_client.Bytes.{Bytes, starts_with}
use etcd_client.VecExt.{strip_key_prefix}
use etcd_client.VecExt.Strip.{strip_key_prefix_other}
use etcd_client.Error.{Foreign, Result, ok}
use etcd_client.Exec.{Exec, pure, ◌>>=◌, continue_ok, continue-pure_ok}
use etcd_client.Caller.{Session, AuthService, do_call}
use etcd_client.Lease.{
  LeaseService, LeaseKeeper, LeaseKeepAliveResponse, LeaseTimeToLiveResponse, receive, keep_alive,
  keep_alive_impl, first_answer, strip_keys_prefix,
}

module _ {F : Foreign} {Token W : Type 0} (auth : AuthService F Token W)
    (stub : LeaseService F (Session Token W)) (refresh_expired_token : Bool) where
  -- What the first message on the stream makes of the keeper's id.
  first_answer_ok :
      (first : Option LeaseKeepAliveResponse) (s : Session Token W) (id : ℤ)
      → (first_answer auth stub refresh_expired_token first s).0 ≡ ok id
      → (resp : LeaseKeepAliveResponse) × (first ≡ some resp)
        × (is_nonpositive resp.ttl ≡ false)
        × (resp.id ≡ id)
  unfolding first_answer
  first_answer_ok none s id h = cc
  first_answer_ok (some resp) s id h = elim (Bool-cases (is_nonpositive resp.ttl)) [
    | inl expired ↦ absurd (ground (arith, expired))
    | inr alive ↦ (resp, refl, alive, ground (arith, alive))
  ]

  -- What `keep_alive` does with the two ends of the stream.
  abbrev keep_with :
      (stub.Sender × stub.Stream) → Exec F (Session Token W) (LeaseKeeper stub.Sender × stub.Stream)
  keep_with ends = receive stub ends.1 >>= λ first.
      first_answer auth stub refresh_expired_token first >>= λ kept.
      pure (record { id = kept; sender = ends.0 }, ends.1)

  -- The keeper of a successful `keep_alive` stands for a live lease: the server has answered on the
  -- new stream with a positive time to live, and the keeper has the id of that answer.
  pub keep_alive_sound :
      (id : ℤ) (s : Session Token W) (keeper : LeaseKeeper stub.Sender) (stream : stub.Stream)
      → (keep_alive auth stub refresh_expired_token id s).0 ≡ ok (keeper, stream)
      → (s' : Session Token W) × (resp : LeaseKeepAliveResponse) × ((receive stub stream s').0
          ≡ ok (some resp))
        × (is_nonpositive resp.ttl ≡ false)
        × (keeper.id ≡ resp.id)
  unfolding keep_alive
  keep_alive_sound id s keeper stream h =
      let opening : Result F (stub.Sender × stub.Stream) × Session Token W =
        do_call auth refresh_expired_token (record { id = id })
          (keep_alive_impl auth stub refresh_expired_token) s in
      let (ends, opened, after_open) =
        continue_ok opening.0 keep_with opening.1 (keeper, stream) h in
      let receiving : Result F (Option LeaseKeepAliveResponse) × Session Token W =
        receive stub ends.1 opening.1 in
      let (first, received, after_first) =
        continue_ok receiving.0
          (λ first. first_answer auth stub refresh_expired_token first >>= λ kept.
            pure (record { id = kept; sender = ends.0 }, ends.1))
          receiving.1 (keeper, stream) after_open in
      let answering : Result F ℤ × Session Token W =
        first_answer auth stub refresh_expired_token first receiving.1 in
      let (kept, answered, made) =
        continue-pure_ok answering.0 (λ kept. (record { id = kept; sender = ends.0 }, ends.1))
          answering.1 (keeper, stream) after_first in
      let (resp, is_first, alive, same_id) = first_answer_ok first receiving.1 kept answered in
      (
        opening.1,
        resp,
        subst (λ t. (receive stub t opening.1).0 ≡ ok (some resp)) (ap (λ p. p.1) made)
            (received ∙ ap ok is_first),
        alive,
        sym (same_id ∙ ap (λ p. p.0.id) made),
      )

-- A key without the prefix stays in the list of a lease's keys, as it is: `time_to_live` of a
-- namespace strips keys and filters none.
pub strip_keys_prefix_keeps :
    (pfx x : Bytes) (before after : List Bytes) (resp : LeaseTimeToLiveResponse)
    → starts_with pfx x ≡ false
    → resp.keys ≡ before ++ x ∷ after
    → (strip_keys_prefix pfx resp).keys
      ≡ map (strip_key_prefix pfx) before ++ x ∷ map (strip_key_prefix pfx) after
unfolding strip_keys_prefix
strip_keys_prefix_keeps pfx x before after resp out e =
    ap (map (strip_key_prefix pfx)) e
    ∙ map-append (strip_key_prefix pfx) before (x ∷ after)
    ∙ ap (λ t. map (strip_key_prefix pfx) before ++ t ∷ map (strip_key_prefix pfx) after)
        (strip_key_prefix_other pfx x out)

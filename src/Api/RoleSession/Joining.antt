-- ===== src/Api/RoleSession/Joining.antt =====
-- api/src/role-session.ts: the opening of a session over the network. The API that a session is
-- given, by its contract's address and the reading of its public state, is a parameter, and so is
-- the joining of a contract with a private state.
use vulnseal.Prelude.{
  ◌≡◌, ap, ◌&&◌, none, all, length, ◌==◌, ◌=ᵇ◌, Result, ok, err, ◌>>=◌, ◌>>◌, guard, >>=-ok,
  guard-ok, ok-injective, bytes_eq-to_eq,
}
use mathlib.Core.Path.{subst}
use vulnseal.Contract.Types.{Hash}
use vulnseal.Contract.Witnesses.{PrivateState, create_private_state}
use vulnseal.Shared.Hex.{Text, is_hex, assert_bytes32}
use vulnseal.Api.VulnSealApi.{ApiError}
use vulnseal.Api.VulnSealApi.PublicState.{PublicContractSnapshot}
use vulnseal.Api.RoleSession.{
  RoleIdentity, RoleSession, SessionError, invalid_address, address_mismatch, api_failure,
  bytes32_of, state_of, open_session, verify_program,
}

pub record SessionApi : Type 0 where
  pub contract_address : Text
  pub public_state : Result ApiError PublicContractSnapshot

abbrev pub api_of : {A : Type 0} → Result ApiError A → Result SessionError A
api_of (ok a) = ok a
api_of (err e) = err (api_failure e)

module _ (h : Hash) where
  unfoldable pub read_public_state :
      RoleSession → SessionApi → Result SessionError PublicContractSnapshot
  unfolding verify_program ◌=ᵇ◌
  read_public_state s api = do
    snapshot ← api_of api.public_state
    guard (snapshot.contract_address =ᵇ api.contract_address) address_mismatch
    verify_program h s snapshot.ledger
    ok snapshot

  api_of-ok : {A : Type 0} (r : Result ApiError A) {a : A} → api_of r ≡ ok a → r ≡ ok a
  api_of-ok (ok b) e = ap ok (ok-injective e)
  api_of-ok (err x) e = cc

  seen :
      (s : RoleSession) (api : SessionApi) {snapshot : PublicContractSnapshot}
      → read_public_state s api ≡ ok snapshot
      → (snapshot : PublicContractSnapshot) × (api.public_state ≡ ok snapshot)
        × (snapshot.contract_address ≡ api.contract_address)
        × (verify_program h s snapshot.ledger ≡ ok tt)
  unfolding read_public_state
  seen s api e = >>=-ok (api_of api.public_state) _ e λ snapshot read e₁.
      guard-ok (snapshot.contract_address =ᵇ api.contract_address) address_mismatch _ e₁ λ same e₂.
        >>=-ok (verify_program h s snapshot.ledger) _ e₂ λ u verified e₃.
          (snapshot, api_of-ok api.public_state read, bytes_eq-to_eq _ _ same, verified)

  unfoldable pub attach : SessionApi → RoleIdentity → Result SessionError RoleSession
  unfolding open_session read_public_state
  attach api identity = do
    session ← open_session identity
    snapshot ← read_public_state session api
    ok session

  unfoldable pub join :
      (Text → PrivateState → Result ApiError SessionApi)
      → Text
      → RoleIdentity
      → Result SessionError RoleSession
  unfolding assert_bytes32 create_private_state attach
  join api_join contract_address identity = do
    guard (all is_hex contract_address && (length contract_address == 64)) invalid_address
    program ← bytes32_of (assert_bytes32 identity.program_id)
    state ← state_of (create_private_state identity.actor_secret none none none)
    api ← api_of (api_join contract_address state)
    attach api identity

  -- A session that is attached has read a public state under the address of its API, of which the
  -- ledger shows its program, and for a vendor its key.
  attach_lem :
      (api : SessionApi) (identity : RoleIdentity) {s : RoleSession}
      → attach api identity ≡ ok s
      → (open_session identity ≡ ok s)
        × ((snapshot : PublicContractSnapshot) × (api.public_state ≡ ok snapshot)
            × (snapshot.contract_address ≡ api.contract_address)
            × (verify_program h s snapshot.ledger ≡ ok tt))
  unfolding attach read_public_state
  attach_lem api identity {s} e = >>=-ok (open_session identity) _ e λ session opened e₁.
      >>=-ok (read_public_state session api) _ e₁ λ snapshot read e₂.
        subst
          (λ s.
            (open_session identity ≡ ok s)
            × ((snapshot : PublicContractSnapshot) × (api.public_state ≡ ok snapshot)
                × (snapshot.contract_address ≡ api.contract_address)
                × (verify_program h s snapshot.ledger ≡ ok tt)))
          (ok-injective e₂) (opened, seen session api read)

-- ===== src/Processor/Claimed.antt =====
-- What a claim of rewards that succeeds has checked and leaves behind.
use deltafi_contracts.Prelude.{
  ℕ, ◌<◌, ◌≡◌, ◌≢◌, ap, ◌∙◌, true, List, [], ◌∷◌, ◌==◌, not, ◌||◌, refl, arith,
}
use deltafi_contracts.Outcome.{
  ok, refuse_if, >>=-ok-elim, invalid_account_owner, invalid_owner, invalid_signer,
}
use deltafi_contracts.State.Position.{Pubkey}
use deltafi_contracts.State.Liquidity.{LiquidityProvider, claim}
use deltafi_contracts.State.Liquidity.Amounts.{claim-total}
use deltafi_contracts.State.Config.{ConfigInfo}
use deltafi_contracts.State.Pack.{config_pack, provider_pack}
use deltafi_contracts.Runtime.{
  Runtime, IsRuntime, KeepsOthers, AccountInfo, Account, Store, mint_to,
}
use deltafi_contracts.Runtime.Accounts.{load, save, token_mint_to, authority_id}
use deltafi_contracts.Runtime.Accounts.Laws.{next-here}
use deltafi_contracts.Runtime.Accounts.Calls.{SignedCall, Holds, Runs, Runs-Keeps, save-stored}
use deltafi_contracts.Processor.Payments.{signed}
use deltafi_contracts.Processor.Liquidity.{check_claim, process_claim_liquidity_rewards}

-- The accounts of a claim, in their order.
pub record ClaimAccounts : Type 0 where
  pub config_info : AccountInfo
  pub swap_info : AccountInfo
  pub market_authority_info : AccountInfo
  pub liquidity_provider_info : AccountInfo
  pub liquidity_owner_info : AccountInfo
  pub claim_destination_info : AccountInfo
  pub claim_mint_info : AccountInfo
  pub token_program_info : AccountInfo
  pub others : List AccountInfo

abbrev pub listed : ClaimAccounts → List AccountInfo
listed a =
    a.config_info ∷ a.swap_info ∷ a.market_authority_info ∷ a.liquidity_provider_info
    ∷ a.liquidity_owner_info ∷ a.claim_destination_info ∷ a.claim_mint_info ∷ a.token_program_info
    ∷ a.others

-- The reward, minted by the authority of the configuration.
abbrev pub claim_calls : ClaimAccounts → (bump_seed reward_amount : ℕ) → List SignedCall
claim_calls a bump_seed reward_amount =
    signed a.config_info.key bump_seed (
      mint_to a.token_program_info.key a.claim_mint_info.key a.claim_destination_info.key
        a.market_authority_info.key reward_amount)
    ∷ []

-- The configuration, the owner who has signed, the amount that is claimed from the provider that was held,
-- and the one call that mints it.
pub record IsClaimed (rt : Runtime) (program_id : Pubkey) (a : ClaimAccounts) (s s' : Store)
    : Type 0 where
  pub config : ConfigInfo
  pub config_owned : (s a.config_info.key).owner ≡ program_id
  pub config_held : load rt config_pack s a.config_info ≡ ok config
  pub authority :
      authority_id rt program_id a.config_info.key config.bump_seed ≡ ok a.market_authority_info.key
  pub is_reward : a.claim_mint_info.key ≡ config.deltafi_mint
  pub provider : LiquidityProvider
  pub held : load rt provider_pack s a.liquidity_provider_info ≡ ok provider
  pub named : provider.owner ≡ a.liquidity_owner_info.key
  pub owner_signed : a.liquidity_owner_info.is_signer ≡ true
  pub claimed : LiquidityProvider
  pub reward_amount : ℕ
  pub claims : claim provider a.swap_info.key ≡ ok (claimed, reward_amount)
  pub some_owed : 0 < reward_amount
  pub saved : Store
  pub written : save rt provider_pack claimed s a.liquidity_provider_info ≡ ok saved
  pub minted : Runs rt (claim_calls a config.bump_seed reward_amount) saved s'
  pub provider_left : Holds rt provider_pack claimed s s' a.liquidity_provider_info

check_claim-lem :
    (rt : Runtime) (program_id : Pubkey) (s : Store) (config : ConfigInfo)
    (config_info market destination mint_info : AccountInfo) (u : Unit {0})
    → check_claim rt program_id s config config_info market destination mint_info ≡ ok u
    → (authority_id rt program_id config_info.key config.bump_seed ≡ ok market.key)
      × (mint_info.key ≡ config.deltafi_mint)
unfolding check_claim
check_claim-lem rt program_id s config config_info market destination mint_info u e0 =
    >>=-ok-elim (authority_id rt program_id config_info.key config.bump_seed) _ e0 λ key ck e1.
      >>=-ok-elim (refuse_if (not (market.key == key)) _) _ e1 λ u1 c1 e2.
        >>=-ok-elim (refuse_if (not (config.deltafi_mint == mint_info.key)) _) _ e2 λ u2 c2 e3.
          let same : key ≡ market.key = ground arith in
          let reward : mint_info.key ≡ config.deltafi_mint = ground arith in
          (ck ∙ ap ok same, reward)

config_owned_by :
    (program_id : Pubkey) (s : Store) (a b : AccountInfo) (u : Unit {0})
    → refuse_if
        (not ((s a.key).owner == program_id) || not ((s b.key).owner == program_id))
        invalid_account_owner
      ≡ ok u
    → (s b.key).owner ≡ program_id
config_owned_by program_id s a b u e = ground arith

signed_by :
    (provider : LiquidityProvider) (owner : AccountInfo) (u v : Unit {0})
    → refuse_if (not (provider.owner == owner.key)) invalid_owner ≡ ok u
    → refuse_if (not owner.is_signer) invalid_signer ≡ ok v
    → (provider.owner ≡ owner.key) × (owner.is_signer ≡ true)
signed_by provider owner u v e f = ground arith

mint-Runs :
    (rt : Runtime) (a : ClaimAccounts) (bump_seed reward_amount : ℕ) (s s' : Store)
    → token_mint_to rt a.config_info.key a.token_program_info a.claim_mint_info
        a.claim_destination_info a.market_authority_info bump_seed reward_amount s
      ≡ ok s'
    → Runs rt (claim_calls a bump_seed reward_amount) s s'
unfolding token_mint_to
mint-Runs rt a bump_seed reward_amount s s' e = (s', e, refl)

-- A claim of rewards that succeeds was signed by the owner of the provider, and its mint and authority are
-- those of a configuration in an account of the program's. Once the provider after the claim is saved,
-- exactly one call is made: it mints what the provider claims of the pool, which is not nothing. Where that
-- call changes no account of an owner other than the token program, and the provider's account is not the
-- token program's, that account holds in the end the packed provider after the claim.
pub process_claim_liquidity_rewards-IsClaimed :
    (rt : Runtime) (program_id : Pubkey)
    → IsRuntime rt
    → KeepsOthers rt
    → (a : ClaimAccounts) (s s' : Store)
    → (s a.liquidity_provider_info.key).owner ≢ a.token_program_info.key
    → process_claim_liquidity_rewards rt program_id (listed a) s ≡ ok s'
    → IsClaimed rt program_id a s s'
unfolding process_claim_liquidity_rewards
process_claim_liquidity_rewards-IsClaimed rt program_id lawful keeps a s s' foreign e0 =
    let e1 = next-here rt lawful a.config_info _ _ e0 in
    let e2 = next-here rt lawful a.swap_info _ _ e1 in
    let e3 = next-here rt lawful a.market_authority_info _ _ e2 in
    let e4 = next-here rt lawful a.liquidity_provider_info _ _ e3 in
    let e5 = next-here rt lawful a.liquidity_owner_info _ _ e4 in
    let e6 = next-here rt lawful a.claim_destination_info _ _ e5 in
    let e7 = next-here rt lawful a.claim_mint_info _ _ e6 in
    let e8 = next-here rt lawful a.token_program_info _ _ e7 in
    >>=-ok-elim (refuse_if _ invalid_account_owner) _ e8 λ u0 c0 f0.
      >>=-ok-elim (load rt config_pack s a.config_info) _ f0 λ config' cc' f1.
        >>=-ok-elim (check_claim rt program_id s config' _ _ _ _) _ f1 λ u1 c1 f2.
          >>=-ok-elim (load rt provider_pack s a.liquidity_provider_info) _ f2 λ p cp f3.
            >>=-ok-elim (refuse_if _ invalid_owner) _ f3 λ u2 c2 f4.
              >>=-ok-elim (refuse_if _ invalid_signer) _ f4 λ u3 c3 f5.
                >>=-ok-elim (claim p a.swap_info.key) _ f5 λ got cg f6.
                  >>=-ok-elim (save rt provider_pack got.0 s a.liquidity_provider_info) _ f6
                    λ s1 k1 f7.
                      let (authority', reward') =
                        check_claim-lem rt program_id s config' a.config_info
                          a.market_authority_info a.claim_destination_info a.claim_mint_info u1
                          c1 in
                      let (named', signed') = signed_by p a.liquidity_owner_info u2 u3 c2 c3 in
                      let (_, positive, _) = claim-total p got.0 a.swap_info.key got.1 cg in
                      let (left, wrote) =
                        save-stored rt provider_pack got.0 s s1 a.liquidity_provider_info k1 in
                      let runs = mint-Runs rt a config'.bump_seed got.1 s1 s' f7 in
                      let kept =
                        (Runs-Keeps rt (s a.liquidity_provider_info.key).owner keeps
                            (claim_calls a config'.bump_seed got.1) s1 s' (foreign, tt) runs).same
                          a.liquidity_provider_info.key
                          (wrote.owner a.liquidity_provider_info.key) in
                      record {
                        config = config';
                        config_owned = config_owned_by program_id s a.swap_info a.config_info u0 c0;
                        config_held = cc';
                        authority = authority';
                        is_reward = reward';
                        provider = p;
                        held = cp;
                        named = named';
                        owner_signed = signed';
                        claimed = got.0;
                        reward_amount = got.1;
                        claims = cg;
                        some_owed = positive;
                        saved = s1;
                        written = k1;
                        minted = runs;
                        provider_left = record {
                          bytes = left.bytes;
                          packed = left.packed;
                          stored = ap (λ (x : Account). x.contents) kept ∙ left.stored;
                        };
                      }

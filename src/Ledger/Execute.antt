-- ===== src/Ledger/Execute.antt =====
-- The instructions of programs/shadow-lend/src/lib.rs on the accounts of the ledger: the constraints,
-- the handler, and the accounts that it writes back.
use shadowlend.Ledger.Call.{Call, LiquidateCall}
use shadowlend.Prelude.{ℕ, List}
use shadowlend.Result.{
  Result, ok, market, constraint, MarketError, ◌>>=◌, ◌>>◌, require_keys_eq, ok_or,
}
use shadowlend.State.{Pubkey, Market, Clock, ActionKind}
use shadowlend.Runtime.{Runtime, AccountInfo}
use shadowlend.Instructions.Supply.{supply}
use shadowlend.Instructions.Withdraw.{withdraw}
use shadowlend.Instructions.Borrow.{borrow}
use shadowlend.Instructions.Repay.{repay}
use shadowlend.Instructions.Liquidate.{Liquidate, Liquidated, liquidate}
use shadowlend.Instructions.Admin.{InitializeMarket, initialize_market, set_claim_amount}
use shadowlend.Instructions.Faucet.{ClaimFaucet, claim_faucet}
use shadowlend.Instructions.Stats.{init_user_stats, record_action}
use shadowlend.Ledger.{
  Addresses, Ledger, put, init, market_of, market_at, position_of, modify_position,
  modify_position_with_price, write_back, market_seed, auth_seed, vault_seed, claim_seed,
  position_seed, stats_seed,
}

module _ (rt : Runtime) (ad : Addresses rt) where
  -- The accounts of `InitializeMarket` that the handler writes down.
  abbrev pub market_context : Pubkey → Pubkey → InitializeMarket
  market_context admin mint = record {
    admin = admin;
    mint = mint;
    market_bump = ad.bump (market_seed mint);
    authority_bump = ad.bump (auth_seed mint);
  }

  -- The accounts of `ClaimFaucet`.
  abbrev pub claim_context : Pubkey → Pubkey → Market → ClaimFaucet
  claim_context user mint m = record {
    user = user;
    market = m;
    mint = mint;
    authority = ad.find (auth_seed mint);
    recipient_ata = ad.associated_token user mint;
    receipt_bump = ad.bump (claim_seed user mint);
  }

  unfoldable pub run_initialize_market :
      Ledger rt → Clock → (admin mint claim ltv feed rate : ℕ) → Result (Ledger rt)
  run_initialize_market l clock admin mint claim ltv feed rate = do
    let key = ad.find (market_seed mint)
    init l.markets key
    m ← initialize_market (market_context admin mint) clock claim ltv feed rate
    ok (record l { markets = put l.markets key m })

  unfoldable pub run_set_claim_amount : Ledger rt → (admin key amount : ℕ) → Result (Ledger rt)
  run_set_claim_amount l admin key amount = do
    m ← market_at rt ad l key
    m' ← set_claim_amount admin m amount
    ok (record l { markets = put l.markets key m' })

  unfoldable pub run_claim_faucet : Ledger rt → Clock → (user mint : ℕ) → Result (Ledger rt)
  run_claim_faucet l clock user mint = do
    m ← market_of rt ad l mint
    let key = ad.find (claim_seed user mint)
    init l.receipts key
    r ← claim_faucet rt (claim_context user mint m) l.tokens clock
    ok (record l {
      markets = put l.markets (ad.find (market_seed mint)) r.market;
      receipts = put l.receipts key r.receipt;
      tokens = r.tokens;
    })

  unfoldable pub run_supply : Ledger rt → Clock → (user mint amount : ℕ) → Result (Ledger rt)
  run_supply l clock user mint amount = do
    ctx ← modify_position rt ad l user mint
    r ← supply rt ctx l.tokens clock amount
    ok (write_back rt ad l ctx r)

  unfoldable pub run_repay : Ledger rt → Clock → (user mint amount : ℕ) → Result (Ledger rt)
  run_repay l clock user mint amount = do
    ctx ← modify_position rt ad l user mint
    r ← repay rt ctx l.tokens clock amount
    ok (write_back rt ad l ctx r)

  unfoldable pub run_withdraw :
      Ledger rt
      → Clock
      → (user mint amount : ℕ) → rt.PriceUpdate
      → List (AccountInfo rt)
      → Result (Ledger rt)
  run_withdraw l clock user mint amount update remaining = do
    ctx ← modify_position_with_price rt ad l user mint update remaining
    r ← withdraw rt ctx l.tokens clock amount
    ok (write_back rt ad l ctx.base r)

  unfoldable pub run_borrow :
      Ledger rt
      → Clock
      → (user mint amount : ℕ) → rt.PriceUpdate
      → List (AccountInfo rt)
      → Result (Ledger rt)
  run_borrow l clock user mint amount update remaining = do
    ctx ← modify_position_with_price rt ad l user mint update remaining
    r ← borrow rt ctx l.tokens clock amount
    ok (write_back rt ad l ctx.base r)

  -- The accounts of `Liquidate`: two markets by their keys, the borrower's positions in them, and
  -- two token accounts of the liquidator.
  unfoldable pub liquidate_context : Ledger rt → LiquidateCall rt → Result (Liquidate rt)
  liquidate_context l c = do
    dm ← market_at rt ad l c.debt_market_key
    dp ← position_of rt ad l c.borrower dm.mint
    require_keys_eq (ad.token_mint l.tokens c.liquidator_debt_ata) dm.mint
        (market MarketError.mint_mismatch)
    require_keys_eq (ad.token_owner l.tokens c.liquidator_debt_ata) c.liquidator
        (market MarketError.unauthorized)
    cm ← market_at rt ad l c.collateral_market_key
    cp ← position_of rt ad l c.borrower cm.mint
    require_keys_eq cm.authority_bump (ad.bump (auth_seed cm.mint)) constraint
    require_keys_eq (ad.token_mint l.tokens c.liquidator_collateral_ata) cm.mint
        (market MarketError.mint_mismatch)
    require_keys_eq (ad.token_owner l.tokens c.liquidator_collateral_ata) c.liquidator
        (market MarketError.unauthorized)
    ok (record {
      liquidator = c.liquidator;
      borrower = c.borrower;
      debt_market = dm;
      debt_position_key = ad.find (position_seed c.borrower dm.mint);
      debt_position = dp;
      debt_vault = ad.find (vault_seed dm.mint);
      debt_price_update = c.debt_price_update;
      liquidator_debt_ata = c.liquidator_debt_ata;
      collateral_market = cm;
      collateral_position_key = ad.find (position_seed c.borrower cm.mint);
      collateral_position = cp;
      collateral_vault = ad.find (vault_seed cm.mint);
      collateral_authority = ad.find (auth_seed cm.mint);
      collateral_price_update = c.collateral_price_update;
      liquidator_collateral_ata = c.liquidator_collateral_ata;
      remaining_accounts = c.remaining_accounts;
    })

  -- The accounts are written in the order of the struct, also where two of them are one account.
  unfoldable pub write_liquidated :
      Ledger rt → LiquidateCall rt → Liquidate rt → Liquidated rt.Tokens → Ledger rt
  write_liquidated l c ctx r = record l {
    markets =
        put (put l.markets c.debt_market_key r.debt_market) c.collateral_market_key
          r.collateral_market;
    positions =
        put (put l.positions ctx.debt_position_key r.debt_position) ctx.collateral_position_key
          r.collateral_position;
    tokens = r.tokens;
  }

  unfoldable pub run_liquidate : Ledger rt → Clock → LiquidateCall rt → ℕ → Result (Ledger rt)
  run_liquidate l clock c repay_amount = do
    ctx ← liquidate_context l c
    r ← liquidate rt ctx l.tokens clock repay_amount
    ok (write_liquidated l c ctx r)

  unfoldable pub run_init_user_stats : Ledger rt → Clock → Pubkey → Result (Ledger rt)
  run_init_user_stats l clock user = do
    let key = ad.find (stats_seed user)
    init l.stats key
    ok (record l {
      stats = put l.stats key (init_user_stats user (ad.bump (stats_seed user)) clock);
    })

  unfoldable pub run_record_action :
      Ledger rt → Clock → Pubkey → ActionKind → ℕ → Result (Ledger rt)
  run_record_action l clock user kind health_bps = do
    let key = ad.find (stats_seed user)
    s ← ok_or (l.stats key) constraint
    require_keys_eq s.bump (ad.bump (stats_seed user)) constraint
    r ← record_action user s clock kind health_bps
    ok (record l { stats = put l.stats key r.0 })

  -- The `#[program]` module: one instruction for each call.
  unfoldable pub execute : Ledger rt → Clock → Call rt → Result (Ledger rt)
  execute l clock (Call.initialize_market admin mint claim ltv feed rate) =
      run_initialize_market l clock admin mint claim ltv feed rate
  execute l clock (Call.set_claim_amount admin key amount) = run_set_claim_amount l admin key amount
  execute l clock (Call.claim_faucet user mint) = run_claim_faucet l clock user mint
  execute l clock (Call.supply user mint amount) = run_supply l clock user mint amount
  execute l clock (Call.repay user mint amount) = run_repay l clock user mint amount
  execute l clock (Call.withdraw user mint amount update remaining) =
      run_withdraw l clock user mint amount update remaining
  execute l clock (Call.borrow user mint amount update remaining) =
      run_borrow l clock user mint amount update remaining
  execute l clock (Call.liquidate c repay_amount) = run_liquidate l clock c repay_amount
  execute l clock (Call.init_user_stats user) = run_init_user_stats l clock user
  execute l clock (Call.record_action user kind health_bps) =
      run_record_action l clock user kind health_bps

-- ===== src/Ledger/Sound.antt =====
-- What holds of the stored markets and positions of programs/shadow-lend/src/lib.rs between
-- instructions, and how a write keeps it.
use mathlib.Core.Option.{some-injective}
use shadowlend.Prelude.{ℕ, ◌≤◌, ◌<◌, ◌≡◌, ◌≢◌, ◌⊎◌, ap, sym, ◌∙◌, inl, inr, some, arith}
use shadowlend.Machine.{u128_max}
use shadowlend.State.{Pubkey, Market, Position, bps_denominator, rate_scale_e18, mint_decimals}
use shadowlend.Runtime.{Runtime}
use shadowlend.Ledger.{Addresses, AddressLaws, Store, put, market_seed, position_seed, auth_seed}

-- A later state of one market: its terms are the same, and its index has not fallen.
pub record Evolves (m m' : Market) : Type 0 where
  pub admin : m'.admin ≡ m.admin
  pub mint : m'.mint ≡ m.mint
  pub max_ltv_bps : m'.max_ltv_bps ≡ m.max_ltv_bps
  pub feed_id : m'.feed_id ≡ m.feed_id
  pub rate : m'.borrow_rate_per_slot_e18 ≡ m.borrow_rate_per_slot_e18
  pub bump : m'.bump ≡ m.bump
  pub authority_bump : m'.authority_bump ≡ m.authority_bump
  pub index : m.borrow_index_e18 ≤ m'.borrow_index_e18
  pub index_bound : m'.borrow_index_e18 ≤ u128_max

pub Evolves-refl : (m : Market) → m.borrow_index_e18 ≤ u128_max → Evolves m m
Evolves-refl m h = ground arith

pub Evolves-trans : {m m' m'' : Market} → Evolves m m' → Evolves m' m'' → Evolves m m''
Evolves-trans e e' = ground arith

module _ (rt : Runtime) (ad : Addresses rt) where
  -- A market as it is stored for a mint.
  pub record IsMarket (mint : Pubkey) (m : Market) : Type 0 where
    pub mint_is : m.mint ≡ mint
    pub ltv_positive : 0 < m.max_ltv_bps
    pub ltv_bound : m.max_ltv_bps < bps_denominator
    pub index_floor : rate_scale_e18 ≤ m.borrow_index_e18
    pub index_bound : m.borrow_index_e18 ≤ u128_max
    pub bump : m.bump ≡ ad.bump (market_seed mint)
    pub authority_bump : m.authority_bump ≡ ad.bump (auth_seed mint)

  -- A position as it is stored for a user and a mint whose market is `m`: its copies of the market's
  -- terms are the market's, and its snapshot is an index that the market has had.
  pub record IsPosition (user mint : Pubkey) (m : Market) (p : Position) : Type 0 where
    pub user_is : p.user ≡ user
    pub market : p.market ≡ ad.find (market_seed mint)
    pub feed_id : p.feed_id ≡ m.feed_id
    pub max_ltv_bps : p.max_ltv_bps ≡ m.max_ltv_bps
    pub decimals : p.decimals ≡ mint_decimals
    pub bump : p.bump ≡ ad.bump (position_seed user mint)
    pub snapshot_floor : rate_scale_e18 ≤ p.borrow_index_snapshot_e18
    pub snapshot : p.borrow_index_snapshot_e18 ≤ m.borrow_index_e18

  pub record IsSound (markets : Store Market) (positions : Store Position) : Type 0 where
    pub market :
        (mint : Pubkey) (m : Market)
        → markets (ad.find (market_seed mint)) ≡ some m
        → IsMarket mint m
    pub position :
        (user mint : Pubkey) (p : Position)
        → positions (ad.find (position_seed user mint)) ≡ some p
        → (m : Market) × (markets (ad.find (market_seed mint)) ≡ some m) × IsPosition user mint m p

  pub IsMarket-Evolves :
      {mint : Pubkey} {m m' : Market} → IsMarket mint m → Evolves m m' → IsMarket mint m'
  IsMarket-Evolves h e = ground arith

  pub IsPosition-Evolves :
      {user mint : Pubkey} {m m' : Market} {p : Position}
      → IsPosition user mint m p
      → Evolves m m'
      → IsPosition user mint m' p
  IsPosition-Evolves h e = ground arith

module _ {A : Type 0} (store : Store A) (key : Pubkey) (a : A) where
  pub put_here : put store key a key ≡ some a
  unfolding put
  put_here = ground arith

  pub put_elsewhere : (k : Pubkey) → k ≢ key → put store key a k ≡ store k
  unfolding put
  put_elsewhere k apart = ground arith

  pub put_found :
      (k : Pubkey) {b : A}
      → put store key a k ≡ some b
      → ((k ≡ key) × (a ≡ b)) ⊎ ((k ≢ key) × (store k ≡ some b))
  unfolding put
  put_found k e = ground arith

pub eq_or_ne : (a b : ℕ) → (a ≡ b) ⊎ (a ≢ b)
eq_or_ne a b = ground arith

pub market_seed-inj : {a b : Pubkey} → market_seed a ≡ market_seed b → a ≡ b
market_seed-inj e = cc

pub position_seed-inj :
    {a b c d : Pubkey} → position_seed a b ≡ position_seed c d → (a ≡ c) × (b ≡ d)
position_seed-inj e = (cc, cc)

module _ (rt : Runtime) (ad : Addresses rt) (laws : AddressLaws rt ad) {M : Store Market}
    {P : Store Position} where
  -- A market that evolves keeps the ledger sound.
  pub put_market-IsSound :
      {mint : Pubkey} {m m' : Market}
      → IsSound rt ad M P
      → M (ad.find (market_seed mint)) ≡ some m
      → Evolves m m'
      → IsSound rt ad (put M (ad.find (market_seed mint)) m') P
  put_market-IsSound {mint} {m} {m'} s found ev = record {
    market = λ mint' x h.
        elim (put_found M (ad.find (market_seed mint)) m' (ad.find (market_seed mint')) h) [
          | inl (same, eq) ↦
              let ms = market_seed-inj (laws.find_injective _ _ same) in
              rw (ms, ← eq) (IsMarket-Evolves rt ad (s.market mint m found) ev)
          | inr (apart, old) ↦ s.market mint' x old
        ];
    position = λ user mint' p h.
        let (x, stored, is) = s.position user mint' p h in
        elim (eq_or_ne (ad.find (market_seed mint')) (ad.find (market_seed mint))) [
          | inl same ↦
              let eq : m ≡ x = some-injective _ _ (sym found ∙ ap M (sym same) ∙ stored) in
              (
                m',
                rw same (put_here M (ad.find (market_seed mint)) m'),
                IsPosition-Evolves rt ad (rw eq is) ev,
              )
          | inr apart ↦ (x, put_elsewhere M (ad.find (market_seed mint)) m' _ apart ∙ stored, is)
        ];
  }

  -- A position of a stored market's terms keeps the ledger sound.
  pub put_position-IsSound :
      {user mint : Pubkey} {m : Market} {p : Position}
      → IsSound rt ad M P
      → M (ad.find (market_seed mint)) ≡ some m
      → IsPosition rt ad user mint m p
      → IsSound rt ad M (put P (ad.find (position_seed user mint)) p)
  put_position-IsSound {user} {mint} {m} {p} s found is = record {
    market = s.market;
    position = λ user' mint' q h.
        elim (put_found P (ad.find (position_seed user mint)) p
          (ad.find (position_seed user' mint')) h) [
            | inl (same, eq) ↦
                let (us, ms) = position_seed-inj (laws.find_injective _ _ same) in
                rw (us, ms, ← eq) (m, found, is)
            | inr (apart, old) ↦ s.position user' mint' q old
          ];
  }

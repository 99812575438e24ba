-- ===== src/Domain/Instrument.antt =====
-- internal/domain/instrument/instrument.go and internal/domain/money/money.go: what an order trades.
-- Venues, currencies and symbols are texts.
pub mod Pairs
use delta_works.Base.{String}

abbrev pub VenueId : Type 0
VenueId = String

abbrev pub Currency : Type 0
Currency = String

-- `TypeSpot` is the only class that the code names.
pub data InstrumentType : Type 0 where
  spot : InstrumentType
  unknown : String → InstrumentType

-- `NewVenueID` and money's `NewCurrency`, over the functions of the library on texts.
abbrev pub new_venue_id : (String → String) → (String → String) → String → VenueId
new_venue_id lower trim name = lower (trim name)

abbrev pub new_currency : (String → String) → (String → String) → String → Currency
new_currency upper trim code = upper (trim code)

pub record Rules (D : Type 0) : Type 0 where
  pub price_increment : D
  pub qty_increment : D
  pub min_qty : D
  pub min_notional : D

pub record Instrument (D : Type 0) : Type 0 where
  pub venue : VenueId
  pub type : InstrumentType
  pub base : Currency
  pub quote : Currency
  pub venue_symbol : String
  pub rules : Rules D

-- ===== src/Domain/RawWeight.antt =====
-- internal/domain/raw_weight.go: the audit record of one scale observation. A raw text is its bytes.
use plantops_edge_scale.Base.{ℕ, Bool, String, List, Option, ℤ}
use plantops_edge_scale.Domain.Types.{Time, Health}

pub data RawWeightEventKind : Type 0 where
  frame transport_error : RawWeightEventKind

pub record RawWeightEvent : Type 0 where
  pub station_id : String
  pub transaction_id : String
  pub kind : RawWeightEventKind
  pub received_at_utc : Time
  pub source : String
  pub raw_base64 : String
  pub raw_text : List ℕ
  pub weight_kg : Option ℤ
  pub stable : Option Bool
  pub overload : Option Bool
  pub fault : String
  pub health : Health
  pub parse_ok : Bool
  pub error : String

-- ===== src/Double.antt =====
-- The `double` arithmetic of the congestion window, as an interface: the program gets it from the
-- machine, and what is proved rests on how it rounds only where a hypothesis says so.
use hybrid_ftp.Base.{ℕ, Bool}

pub record Double (D : Type 0) : Type 0 where
  pub one : D
  pub two : D
  pub add : D → D → D
  pub divide : D → D → D
  pub larger : D → D → D
  pub smaller : D → D → D
  pub floor : D → D
  pub less : D → D → Bool
  -- `static_cast<uint32_t>` of a double, and `static_cast<double>` of a `uint32_t`
  pub to_u32 : D → ℕ
  pub of_u32 : ℕ → D

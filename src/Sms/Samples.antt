-- ===== src/Sms/Samples.antt =====
-- The blacklist on a small database.
use auto_bot_lbc_pj.Prelude.{[], ◌∷◌}
use auto_bot_lbc_pj.Samples.{empty_db}
use auto_bot_lbc_pj.Tables.{Db}

abbrev listed : Db
listed = record empty_db {
  blacklist = record { phone = "+33600000001"; source_sim = "s"; source_project = "P2" } ∷ [];
}

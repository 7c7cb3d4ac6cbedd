-- ===== src/DbConfig/Tests.antt =====
-- A file with every setting out of range.
use iocpserver.Prelude.{some, [], ◌∷◌}
use iocpserver.Prelude.Int.{pos, negsuc}
use iocpserver.DbConfig.{DbConfig, Ini, load}
use iocpserver.DbConfig.Bounds.{IsWithin, load-IsWithin}

abbrev wild : Ini
wild = record {
  conn = 32 ∷ [];
  pool_size = negsuc 4;
  health_sec = pos 0;
  query_timeout_sec = pos 500;
}

abbrev unset : DbConfig
unset = record { conn_str = []; pool_size = pos 4; health_sec = pos 10; query_timeout_sec = pos 5 }

load-IsWithin_example :
    let (ok, c') = load (some wild) unset in
    IsWithin 1 64 c'.pool_size × IsWithin 1 3600 c'.health_sec × IsWithin 1 120 c'.query_timeout_sec
load-IsWithin_example = load-IsWithin wild unset

-- ===== src/Rdt/Stats.antt =====
-- The setters of the classes in src/rdt/ReliableTransfer.h.
use hybrid_ftp.Base.{ℕ}
use hybrid_ftp.Rdt.{RdtSender, RdtReceiver}

module _ {D : Type 0} where
  unfoldable pub set_mss : RdtSender D → ℕ → RdtSender D
  set_mss o mss = record o { mss = mss }

  unfoldable pub set_timeout_ms : RdtSender D → ℕ → RdtSender D
  set_timeout_ms o ms = record o { timeout_ms = ms }

  unfoldable pub set_max_retries : RdtSender D → ℕ → RdtSender D
  set_max_retries o r = record o { max_retries = r }

  unfoldable pub set_initial_cwnd : RdtSender D → D → RdtSender D
  set_initial_cwnd o c = record o { init_cwnd = c }

  unfoldable pub set_initial_ssthresh : RdtSender D → D → RdtSender D
  set_initial_ssthresh o s = record o { init_ssthresh = s }

  unfoldable pub set_max_window_segments : RdtSender D → ℕ → RdtSender D
  set_max_window_segments o w = record o { max_win_segs = w }

unfoldable pub set_receive_timeout_ms : RdtReceiver → ℕ → RdtReceiver
set_receive_timeout_ms r ms = record r { timeout_ms = ms }

unfoldable pub set_advertised_window : RdtReceiver → ℕ → RdtReceiver
set_advertised_window r w = record r { adv_window = w }

-- ===== src/Client/Log.antt =====
-- internal/vpnclient/client.go: Logf and the lines that Logs returns.
pub mod Kept
use supervpn.Base.{ℕ, ◌+◌, ◌-◌, ◌%◌, ◌^◌, List, [], ◌∷◌, ◌++◌, ltb, if◌then◌else◌, length, drop}

abbrev pub max_log_lines : ℕ
max_log_lines = 500

pub record Log : Type 0 where
  pub log_lines : List (List ℕ)
  pub log_version : ℕ

abbrev pub empty_log : Log
empty_log = record { log_lines = []; log_version = 0 }

unfoldable pub logf : List ℕ → Log → Log
logf msg l =
    let lines = l.log_lines ++ (msg ∷ []) in
    record {
      log_lines =
          if ltb max_log_lines (length lines)
          then drop (length lines - max_log_lines) lines
          else lines;
      log_version = (l.log_version + 1) % 2 ^ 64;
    }

unfoldable pub logf_all : List (List ℕ) → Log → Log
logf_all [] l = l
logf_all (msg ∷ msgs) l = logf_all msgs (logf msg l)

-- ===== src/Parser/Runs.antt =====
-- Runs of the parser.
use hybrid_ftp.Base.{◌≡◌, refl, true}
use hybrid_ftp.Text.{text}
use hybrid_ftp.Parser.{parse}

parse_cwd :
    parse (text " cwd  docs \r\n")
    ≡ record { name = text "CWD"; argument = text "docs"; valid = true }
unfolding parse
parse_cwd = refl

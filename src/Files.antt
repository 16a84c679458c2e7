-- ===== src/Files.antt =====
-- `os.ReadFile`, as internal/config/config.go and internal/engine/recommend.go use it: what is in a file, or
-- the error, where a file that does not exist is told apart.
use mirador_rca.Prelude.{String}

pub data FileRead (D : Type 0) : Type 0 where
  contents : D → FileRead D
  not_found : String → FileRead D
  unreadable : String → FileRead D

-- ===== src/Monitor/Branches/Print.antt =====
-- c_monitor/main.c: graph_print_and_free, the callback that prints a node's edges and frees its blocks.
use fuzz_monitor.Base.{ℕ, List, [], ◌∷◌, ◌++◌, map, length}
use fuzz_monitor.Text.{Text, codes, hex}
use fuzz_monitor.Graph.{Ptr}

-- The third argument of `graph_foreach`.
pub data Fd : Type 0 where
  null graph_no_print file : Fd

pub record Sink : Type 0 where
  pub written : Text
  pub logged : List (ℕ × ℕ)
  pub freed : List ℕ

-- `\t"0xF" -> "0xT";\n`
unfoldable pub edge_line : ℕ → ℕ → Text
edge_line from to =
    9 ∷ 34 ∷ codes "0x"
    ++ hex from
    ++ 34 ∷ codes " -> "
    ++ 34 ∷ codes "0x"
    ++ hex to
    ++ 34 ∷ codes ";"
    ++ 10 ∷ []

unfoldable pub print_lines : Ptr → List Ptr → Text
print_lines from [] = []
print_lines from (to ∷ connections) = edge_line from.value to.value ++ print_lines from connections

unfoldable pub graph_print_and_free : Fd → Sink → Ptr → List Ptr → Sink
graph_print_and_free null s from connections = record s {
  logged = s.logged ++ (from.value, length connections) ∷ [];
  freed = s.freed ++ map (λ p. p.addr) connections ++ from.addr ∷ [];
}
graph_print_and_free graph_no_print s from connections = record s {
  freed = s.freed ++ map (λ p. p.addr) connections ++ from.addr ∷ [];
}
graph_print_and_free file s from connections = record s {
  written = s.written ++ print_lines from connections;
  freed = s.freed ++ map (λ p. p.addr) connections ++ from.addr ∷ [];
}

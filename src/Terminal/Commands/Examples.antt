-- ===== src/Terminal/Commands/Examples.antt =====
-- Lines as they are typed, and the line editor over the real parser.
use sovelma_os.Prelude.{◌≡◌, ◌++◌, refl, [], ◌∷◌}
use sovelma_os.Prelude.Texts.{codes, join_spaces}
use sovelma_os.Terminal.Commands.{
  connect, dhcp, renew, wasm_test, unknown, command, usage, nothing, parse, parse_command,
}
use sovelma_os.Terminal.Commands.Words.{parse_command-join_spaces}

connects :
    parse_command (codes " Connect 10.0.2.2  080 x ") ≡ command (connect (codes "10.0.2.2") 80)
unfolding parse_command
connects = refl

bad_port : parse_command (codes "nc a 65536") ≡ usage (codes "Invalid port number")
unfolding parse_command
bad_port = refl

renews : parse_command (codes "DHCP Renew") ≡ command (dhcp renew)
unfolding parse_command
renews = refl

others :
    (parse_command (codes "   ") ≡ nothing)
    × (parse_command (codes "wasm") ≡ command (wasm_test (codes "hello.wasm")))
    × (parse_command (codes "LS") ≡ command (unknown (codes "LS")))
    × (parse_command (codes "dns") ≡ usage (codes "Usage: dns <hostname>"))
unfolding parse_command
others = (refl, refl, refl, refl)

parse_command-join_spaces_example :
    parse_command
      (codes "  " ++ (join_spaces (codes "echo" ∷ codes "a" ∷ codes "b" ∷ []) ++ codes " "))
    ≡ parse (codes "echo") (codes "a" ∷ codes "b" ∷ [])
parse_command-join_spaces_example =
    parse_command-join_spaces (codes "  ") (codes " ") (codes "echo") (codes "a" ∷ codes "b" ∷ [])
      (refl, (refl, tt)) (refl, tt)
      ((refl, (refl, (refl, (refl, (refl, tt))))), ((refl, (refl, tt)), ((refl, (refl, tt)), tt)))

-- ===== src/Terminal/Commands.antt =====
-- kernel/src/terminal/commands.rs: `Command` and its parser; kernel/src/terminal/shell.rs:
-- `parse_command`. Numbers are read as `str::parse` does for kernel/src/net/dns.rs.
pub mod Words
pub mod Reading
mod Examples
use sovelma_os.Prelude.{
  ℕ, Bool, true, false, ◌||◌, List, [], ◌∷◌, Option, none, some, map, is_empty, if◌then◌else◌,
}
use sovelma_os.Prelude.Texts.{codes, to_lower, split_whitespace, trim, join_spaces}
use sovelma_os.Fs.Path.{Name-beq}
use sovelma_os.Net.Ipv4.{parse_unsigned}

pub data DhcpAction : Type 0 where
  status renew release : DhcpAction

pub data Command : Type 0 where
  help clear ifconfig sysinfo : Command
  dhcp : DhcpAction → Command
  dns : (hostname : List ℕ) → Command
  connect : (host : List ℕ) → (port : ℕ) → Command
  echo : (text : List ℕ) → Command
  ping : (host : List ℕ) → Command
  wasm_test : (file : List ℕ) → Command
  unknown : (cmd : List ℕ) → Command

-- What parsing gives: a command, or nothing, with the line that it prints.
pub data Parsed : Type 0 where
  command : Command → Parsed
  usage : (line : List ℕ) → Parsed
  nothing : Parsed

abbrev pub one_of : List ℕ → List (List ℕ) → Bool
one_of name [] = false
one_of name (w ∷ ws) = Name-beq name w || one_of name ws

unfoldable pub parse_action : List (List ℕ) → DhcpAction
parse_action [] = status
parse_action (arg ∷ args) =
    if Name-beq (map to_lower arg) (codes "renew")
    then renew
    else if Name-beq (map to_lower arg) (codes "release")
    then release
    else status

-- A command with one argument.
abbrev pub with_first : (List ℕ → Command) → (line : List ℕ) → List (List ℕ) → Parsed
with_first f line [] = usage line
with_first f line (arg ∷ args) = command (f arg)

unfoldable pub parse_connect : List (List ℕ) → Parsed
unfolding parse_unsigned
parse_connect (host ∷ port ∷ args) = elim (parse_unsigned 65535 port) [
  | none ↦ usage (codes "Invalid port number")
  | some n ↦ command (connect host n)
]
parse_connect _ = usage (codes "Usage: connect <host> <port>")

unfoldable pub parse_file : List (List ℕ) → List ℕ
parse_file [] = codes "hello.wasm"
parse_file (arg ∷ args) = arg

unfoldable pub parse : (cmd : List ℕ) → (args : List (List ℕ)) → Parsed
unfolding parse_action parse_connect parse_file Name-beq
parse cmd args =
    let name = map to_lower cmd in
    if one_of name (codes "help" ∷ codes "?" ∷ [])
    then command help
    else if one_of name (codes "clear" ∷ codes "cls" ∷ [])
    then command clear
    else if one_of name (codes "ifconfig" ∷ codes "ip" ∷ [])
    then command ifconfig
    else if one_of name (codes "dhcp" ∷ [])
    then command (dhcp (parse_action args))
    else if one_of name (codes "dns" ∷ codes "nslookup" ∷ codes "resolve" ∷ [])
    then with_first dns (codes "Usage: dns <hostname>") args
    else if one_of name (codes "connect" ∷ codes "nc" ∷ [])
    then parse_connect args
    else if one_of name (codes "echo" ∷ [])
    then command (echo (join_spaces args))
    else if one_of name (codes "ping" ∷ [])
    then with_first ping (codes "Usage: ping <host>") args
    else if one_of name (codes "sysinfo" ∷ codes "info" ∷ [])
    then command sysinfo
    else if one_of name (codes "wasm-test" ∷ codes "wasm" ∷ [])
    then command (wasm_test (parse_file args))
    else if is_empty name
    then nothing
    else command (unknown cmd)

-- `Terminal::parse_command`.
unfoldable pub parse_command : (line : List ℕ) → Parsed
unfolding parse
parse_command line =
    if is_empty (trim line)
    then nothing
    else elim (split_whitespace (trim line)) [ [] ↦ nothing | cmd ∷ args ↦ parse cmd args ]

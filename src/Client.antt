-- ===== src/Client.antt =====
-- client/client.go: a client of the hosts of other nodes, which takes them in turn.
pub mod Turns
pub mod Wire
pub mod Methods
use rebost.Prelude.{
  ℕ, suc, ◌+◌, ◌-◌, String, ◌==◌, ◌<>◌, Bool, Option, none, some, List, [], ◌∷◌, length, eqb,
  get_elem?, if◌then◌else◌,
}
use text.Mathlib.Text.{starts_with}
use rebost.Exec.{Result, ok, err, panic, Exec, Error}

pub record Client (H : Type 0) : Type 0 where
  pub next_client : ℕ
  pub clients : List H

-- "can't initialize the %q with an empty host"
abbrev pub empty_host : Error
empty_host = "can't initialize the \"rebost\" with an empty host"

abbrev pub with_scheme : String → String
with_scheme h = if starts_with h "http" then h else "http://" <> h

module _ {H : Type 0} where
  -- The loop of `New`; `parse` is `url.Parse` and the endpoints made of the result.
  unfoldable pub make_clients : (String → Result H) → List String → Result (List H)
  make_clients parse [] = ok []
  make_clients parse (h ∷ hs) =
      let rest = make_clients parse hs in
      if h == "" then err empty_host else elim (parse (with_scheme h)) [
        | ok c ↦ elim rest [ ok cs ↦ ok (c ∷ cs) | err e ↦ err e | panic ↦ panic ]
        | err e ↦ err e
        | panic ↦ panic
      ]

  unfoldable pub new : (String → Result H) → List String → Result (Client H)
  unfolding make_clients
  new parse hosts = elim (make_clients parse hosts) [
    | ok cs ↦ ok (record { next_client = 0; clients = cs })
    | err e ↦ err e
    | panic ↦ panic
  ]

  -- The index panics where there is no client.
  unfoldable pub get_client : Exec (Client H) H
  get_client c = elim (get_elem? c.clients c.next_client) [
    | none ↦ (panic, c)
    | some rc ↦ (
      ok rc,
      record c {
        next_client = if eqb c.next_client (length c.clients - 1) then 0 else c.next_client + 1;
      },
    )
  ]

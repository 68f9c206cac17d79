-- ===== src/Tests/Connections.antt =====
-- The connection manager with two connections: the first is bound to user 7 on one device, and
-- the second logs in for the same device.
use nebula_im.Base.{◌≡◌, refl, some, List, [], ◌∷◌}
use nebula_im.Base.Keys.{Text, text, nat_eq, text_eq}
use nebula_im.Base.Dict.{lookup, insert, erase}
use nebula_im.Base.Decimal.{to_string}
use nebula_im.Gateway.ConnectionManager.{
  ConnectionManager, init, connection_name, fresh_context, add_connection, bind_user, bind_context,
  release,
}
use nebula_im.Gateway.ConnectionManager.Index.{find}
use nebula_im.Gateway.ConnectionManager.Invariant.{IsValid}
use nebula_im.Gateway.ConnectionManager.Runs.{
  Operation, add, bind, perform, perform_all, perform_all-IsValid,
}
use nebula_im.Gateway.ConnectionManager.{unindex, forget_device}
use nebula_im.Gateway.ConnectionManager.Binding.{bind_user_lem}

abbrev first : Text
first = connection_name (text "gw") 1

abbrev second : Text
second = connection_name (text "gw") 2

abbrev phone : Text
phone = text "phone"

-- The calls that open both, and bind the first.
abbrev calls : List Operation
calls =
    add 11 (text "peer-1") 100
    ∷ bind first 7 (text "token-1") phone (text "ios") 110
    ∷ add 12 (text "peer-2") 120
    ∷ []

abbrev both : ConnectionManager
both = perform_all (init (text "gw")) calls

perform_all-IsValid_example : IsValid both
perform_all-IsValid_example = perform_all-IsValid (text "gw") calls

second_known : lookup second both.contexts ≡ some (fresh_context second (text "peer-2") 120)
unfolding perform_all perform init add_connection bind_user bind_context release unindex
    forget_device lookup insert erase to_string
second_known = refl

-- The first connection loses the phone to the second.
bind_user_lem_example :
    find 7 phone
      (bind_user both second 7 (text "token-2") phone (text "ios") 130).2.user_device_to_connection
    ≡ some second
bind_user_lem_example =
    bind_user_lem both second (fresh_context second (text "peer-2") 120) 7 (text "token-2") phone
      (text "ios") 130 7 phone perform_all-IsValid_example second_known (λ e. cc) (λ e. cc)

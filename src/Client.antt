-- ===== src/Client.antt =====
-- ads.go: the symbols of a connection, by name.
pub mod Handles
pub mod Watch
pub mod Reads
pub mod Memory
pub mod Structs
use go_adstc.Prelude.{
  ℕ, zero, suc, ◌*◌, ◌^◌, Bool, true, false, ◌+◌, ◌&&◌, ltb, ◌==◌, if◌then◌else◌,
}
use go_adstc.Prelude.{List, [], ◌∷◌, length, take, Option, none, some}
use go_adstc.Go.Result.{Result, ok, err, panic, no_symbol, upload_failed}
use go_adstc.Go.Bytes.{of_le}
use go_adstc.Go.Binary.{Layout, field, read_over}
use go_adstc.Symbol.{Text, Symbol, lookup}
use go_adstc.Symbol.Store.{symbol_at, change_at, with_handle, with_receiver}
use go_adstc.Conn.{Env, Conn, M, ◌>>=◌, ◌>>◌, pure, fail, lift, gets, modify, now}
use go_adstc.Command.{read, write, write_read, add_device_notification}
use go_adstc.SymbolTable.Json.{Encoder}
use go_adstc.Defs.{mode_number, server_on_change}
use go_adstc.Defs.Group.{group_number, symbol_handle_by_name, symbol_value_by_handle}
use go_adstc.Defs.Group.{symbol_upload, symbol_data_type_upload, symbol_upload_info2}
use go_adstc.Value.{Formats, write_to_node}
use go_adstc.Value.Update.{deref, parse}

abbrev pub group_handle_by_name : ℕ
group_handle_by_name = group_number symbol_handle_by_name

abbrev pub group_value_by_handle : ℕ
group_value_by_handle = group_number symbol_value_by_handle

abbrev pub group_symbol_upload : ℕ
group_symbol_upload = group_number symbol_upload

abbrev pub group_data_type_upload : ℕ
group_data_type_upload = group_number symbol_data_type_upload

abbrev pub group_upload_info : ℕ
group_upload_info = group_number symbol_upload_info2

abbrev pub on_change : ℕ
on_change = mode_number server_on_change

-- SymbolUploadInfo
pub record UploadInfo : Type 0 where
  pub symbol_count : ℕ
  pub symbol_length : ℕ
  pub data_type_count : ℕ
  pub data_type_length : ℕ
  pub extra_count : ℕ
  pub extra_length : ℕ

abbrev pub info_layout : Layout
info_layout = 4 ∷ 4 ∷ 4 ∷ 4 ∷ 4 ∷ 4 ∷ []

abbrev pub info_of : List ℕ → UploadInfo
info_of vs = record {
  symbol_count = field vs 0;
  symbol_length = field vs 1;
  data_type_count = field vs 2;
  data_type_length = field vs 3;
  extra_count = field vs 4;
  extra_length = field vs 5;
}

-- binary.LittleEndian.Uint32, which panics on fewer than four bytes.
unfoldable pub uint32_of : List ℕ → Result ℕ
uint32_of bytes = if ltb (length bytes) 4 then panic else ok (of_le (take 4 bytes))

-- conn.activeNotifications[handle] = symbol
unfoldable pub put_handle : ℕ → ℕ → List (ℕ × ℕ) → List (ℕ × ℕ)
put_handle h r [] = (h, r) ∷ []
put_handle h r ((j, q) ∷ m) = if j == h then (h, r) ∷ m else (j, q) ∷ put_handle h r m

abbrev pub has_childs : Symbol → Bool
has_childs s = ltb 0 (length s.childs)

abbrev pub wrapped : Result (List ℕ) × Conn → Result (List ℕ) × Conn
wrapped (ok bytes, c) = (ok bytes, c)
wrapped (err e, c) = (err (upload_failed e), c)
wrapped (panic, c) = (panic, c)

module _ (env : Env) where
  unfoldable pub get_handle_by_name : Text → M ℕ
  get_handle_by_name name = do
    resp ← write_read env group_handle_by_name 0 4 name
    lift (uint32_of resp)

  -- The branch of GetSymbol for a symbol that is there. A reference into nothing is a nil pointer.
  unfoldable pub get_known : Text → ℕ → Option Symbol → M ℕ
  get_known name r none = lift panic
  get_known name r (some symbol) =
      if symbol.handle == 0
      then (do
        handle ← get_handle_by_name name
        modify (λ c. record c { store = change_at r (with_handle handle) c.store })
        pure r)
      else pure r

  -- GetSymbol returns the reference.
  unfoldable pub get_symbol : Text → M ℕ
  get_symbol name c = elim (lookup name c.symbols) [
    | none ↦ (err no_symbol, c)
    | some r ↦ get_known name r (symbol_at r c.store) c
  ]

  unfoldable pub write_value : Formats → Text → Option Symbol → M (Unit {0})
  write_value fmts value none = lift panic
  write_value fmts value (some symbol) = do
    types ← gets (λ c. c.datatypes)
    bytes ← lift (write_to_node fmts types (has_childs symbol) symbol.data_type symbol.length value)
    write env group_value_by_handle symbol.handle bytes

  unfoldable pub write_to_symbol : Formats → Text → Text → M (Unit {0})
  write_to_symbol fmts name value = do
    r ← get_symbol name
    symbol ← gets (λ c. symbol_at r c.store)
    write_value fmts value symbol

  unfoldable pub watch : ℕ → ℕ → Option Symbol → M (Unit {0})
  watch channel r none = lift panic
  watch channel r (some symbol) = do
    handle ←
        add_device_notification env group_value_by_handle symbol.handle symbol.length on_change
          (100 * 10 ^ 6) (100 * 10 ^ 6)
    modify (λ c. record c {
      store = change_at r (with_receiver channel) c.store;
      active_notifications = put_handle handle r c.active_notifications;
    })

  -- AddSymbolNotification
  unfoldable pub add_symbol_notification : Text → ℕ → M (Unit {0})
  add_symbol_notification name channel = do
    r ← get_symbol name
    symbol ← gets (λ c. symbol_at r c.store)
    watch channel r symbol

  unfoldable pub get_symbol_upload_info : M UploadInfo
  get_symbol_upload_info = do
    res ← read env group_upload_info 0 24
    pure (read_over info_layout info_of (info_of []) res).0

  -- The error of Read is wrapped.
  unfoldable pub get_upload_symbol_info_data_types : ℕ → M (List ℕ)
  get_upload_symbol_info_data_types length c = wrapped (read env group_data_type_upload 0 length c)

  unfoldable pub get_upload_symbol_info_symbols : ℕ → M (List ℕ)
  get_upload_symbol_info_symbols length = read env group_symbol_upload 0 length

-- symbol.LastUpdateTime = now; symbol.Value = value
abbrev pub with_read : Text → ℕ → Symbol → Symbol
with_read value time s = record s { last_update_time = time; value = value }

module _ (env : Env) (enc : Encoder) (fmts : Formats) where
  unfoldable pub read_value : ℕ → ℕ → Symbol → M Text
  read_value r time symbol = do
    bytes ← read env group_value_by_handle symbol.handle symbol.length
    depth ← gets (λ c. suc (length c.store))
    value ← parse env enc fmts depth r bytes 0
    modify (λ c. record c { store = change_at r (with_read value time) c.store })
    pure value

  -- A value that is not empty is returned again within the interval.
  unfoldable pub read_or_cached : ℕ → ℕ → Symbol → M Text
  read_or_cached r time symbol =
      if ltb time (symbol.last_update_time + symbol.min_update_interval)
        && ltb 0 (length symbol.value)
      then pure symbol.value
      else read_value r time symbol

  -- ReadFromSymbol
  unfoldable pub read_from_symbol : Text → M Text
  read_from_symbol name = do
    r ← get_symbol env name
    symbol ← deref r
    time ← now env
    read_or_cached r time symbol

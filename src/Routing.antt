-- ===== src/Routing.antt =====
-- `portal::record` of src/client.cpp: which server record a handshake's address selects.
pub mod Names
pub mod Laws
use mcshub.Base.{
  ℕ, ◌-◌, Bool, true, false, not, ◌&&◌, Option, none, some, List, [], ◌∷◌, ◌++◌, ltb, ◌==◌,
  if◌then◌else◌, Text, text_eq, length, get_or, take, drop, replicate, c_str, pop_back,
}
use mcshub.Base.Map.{Map, find}
use mcshub.Settings.{BasicRecord, ServerRecord, Settings}

-- `std::string::resize`: new characters are null.
unfoldable pub resize : ℕ → Text → Text
resize n s = take n s ++ replicate (n - length s) 0

-- `name_sz` is the length before the final dot was dropped. The buffer still holds the old
-- terminator behind the new one.
unfoldable pub cut_domain : ℕ → Text → Text → Text
unfolding resize
cut_domain name_sz domain name =
    let domain_sz = length domain in
    if ltb domain_sz name_sz
      && text_eq (c_str (drop (name_sz - domain_sz) (name ++ 0 ∷ 0 ∷ []))) (c_str domain)
    then resize (name_sz - domain_sz) name
    else name

-- The key that is searched for. `none` is undefined behaviour: for an empty name the code reads
-- the byte before the buffer.
unfoldable pub record_name : Text → Text → Option Text
record_name domain address =
    let name = c_str address in
    elim name [
      | [] ↦ none
      | c ∷ s ↦ some (
          cut_domain (length (c ∷ s)) domain
            (if get_or (c ∷ s) (length (c ∷ s) - 1) 0 == b'.' then pop_back (c ∷ s) else c ∷ s))
    ]

-- A Forge client puts a null byte and more behind the address.
unfoldable pub is_fml : Text → Bool
is_fml address = not (length (c_str address) == length address)

unfoldable pub choose : ServerRecord → Bool → BasicRecord
choose r fml = elim r.fml [ none ↦ r.base | some f ↦ if fml then f else r.base ]

unfoldable pub select : Settings → Text → Bool → BasicRecord
unfolding choose
select conf name fml = elim (find name conf.servers) [
  | none ↦ choose conf.default_server fml
  | some r ↦ choose r fml
]

-- The new `server_name`, and the record.
unfoldable pub route : Settings → Text → Option (Text × BasicRecord)
route conf address = elim (record_name conf.domain address) [
  | none ↦ none
  | some name ↦ some (name, select conf name (is_fml address))
]

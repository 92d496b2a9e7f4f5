-- ===== src/Api.antt =====
-- The data that the components exchange: pkg/consts/consts.go, the types of pkg/api, the prepared
-- device of pkg/types, and what the driver reads and writes of a ResourceClaim. `json.Unmarshal`
-- and `json.Marshal` are parameters of the functions that call them. A Go `string` with no value is
-- the empty text, and a pointer is an `Option`.
pub mod Consts
pub mod Port
pub mod Host
pub mod Json
pub mod Claim
pub use Consts.*
pub use Port.*
unfoldable pub use Host.*
pub use Claim.*

-- ===== src/Matter.antt =====
-- apps/oikade-matter-adapter: the endpoints under which devices appear in Matter.
pub mod Endpoints
pub mod EndpointLaws
pub mod Allocation
pub mod Loading
pub mod Shapes
pub mod Classify
pub mod ClassifyLaws
pub mod Naming
pub mod NamingLaws
pub mod Build
pub mod BuildLaws
pub mod Examples

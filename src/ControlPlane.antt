-- ===== src/ControlPlane.antt =====
-- core/internal/controlplane: the metadata of the cluster, its store and its controller.
pub mod Metadata
pub mod Store
pub mod Controller

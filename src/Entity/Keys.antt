-- ===== src/Entity/Keys.antt =====
-- entity.go
use elastic_env_operator.Base.{String}

abbrev pub x_env_flag : String
x_env_flag = "x-env-flag"

abbrev pub app_key : String
app_key = "app"

abbrev pub plane_key : String
plane_key = "version"

abbrev pub team_key : String
team_key = "team"

abbrev pub group_key : String
group_key = "group"

abbrev pub finalizer : String
finalizer = "qa.shouqianba.com/finalizer"

abbrev pub explicit_delete_annotation_key : String
explicit_delete_annotation_key = "qa.shouqianba.com/delete"

abbrev pub istio_inject_annotation_key : String
istio_inject_annotation_key = "qa.shouqianba.com/istio-inject"

abbrev pub ingress_open_annotation_key : String
ingress_open_annotation_key = "qa.shouqianba.com/ingress-open"

abbrev pub public_entry_annotation_key : String
public_entry_annotation_key = "qa.shouqianba.com/public-entry"

abbrev pub service_monitor_annotation_key : String
service_monitor_annotation_key = "qa.shouqianba.com/service-monitor"

abbrev pub special_virtual_service_ingress_key : String
special_virtual_service_ingress_key = "qa.shouqianba.com/special-virtualservice-ingressclass"

abbrev pub deployment_annotation_key : String
deployment_annotation_key = "qa.shouqianba.com/passthrough-deployment"

abbrev pub pod_annotation_key : String
pod_annotation_key = "qa.shouqianba.com/passthrough-pod"

abbrev pub service_annotation_key : String
service_annotation_key = "qa.shouqianba.com/passthrough-service"

abbrev pub destination_rule_annotation_key : String
destination_rule_annotation_key = "qa.shouqianba.com/passthrough-destinationrule"

abbrev pub virtual_service_annotation_key : String
virtual_service_annotation_key = "qa.shouqianba.com/passthrough-virtualservice"

abbrev pub initialize_annotation_key : String
initialize_annotation_key = "qa.shouqianba.com/initialized"

abbrev pub ingress_class_annotation_key : String
ingress_class_annotation_key = "kubernetes.io/ingress.class"

abbrev pub istio_sidecar_inject_key : String
istio_sidecar_inject_key = "sidecar.istio.io/inject"

abbrev pub kubevela_app_name_label : String
kubevela_app_name_label = "app.oam.dev/name"

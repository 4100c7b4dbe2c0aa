-- ===== src/SparkConfig.antt =====
-- streaming/spark/src/config.py: the settings of the session that the Spark jobs share.
use realtime_fraud_feature_s.Prelude.{◌++◌, List, [], ◌∷◌, Text, codes, Dict, put}
use realtime_fraud_feature_s.Settings.{Env, getenv}

-- separator.join(texts)
abbrev join : Text → List Text → Text
join separator [] = []
join separator (t ∷ []) = t
join separator (t ∷ u ∷ ts) = t ++ (separator ++ join separator (u ∷ ts))

abbrev pub spark_packages : Text
spark_packages = join (codes ",") (
    codes "org.apache.spark:spark-sql-kafka-0-10_2.12:3.5.0"
    ∷ codes "org.apache.hadoop:hadoop-aws:3.3.4"
    ∷ codes "io.delta:delta-spark_2.12:3.1.0"
    ∷ [])

-- The builder's options; `appName` and `master` are two of them.
abbrev pub config : Text → Text → Dict Text → Dict Text
config = put

-- The options of the session, and its log level.
pub record SparkSession : Type 0 where
  pub options : Dict Text
  pub log_level : Text

unfoldable pub create_spark_session : Env → Text → SparkSession
unfolding getenv
create_spark_session env app_name =
    let minio_endpoint = getenv env (codes "MINIO_ENDPOINT") (codes "http://localhost:9000") in
    let minio_user = getenv env (codes "MINIO_ROOT_USER") (codes "minioadmin") in
    let minio_password = getenv env (codes "MINIO_ROOT_PASSWORD") (codes "minioadmin") in
    let builder = config (codes "spark.app.name") app_name [] in
    let memory = config (codes "spark.driver.memory") (codes "2g") builder in
    let packages = config (codes "spark.jars.packages") spark_packages memory in
    let extensions =
      config (codes "spark.sql.extensions") (codes "io.delta.sql.DeltaSparkSessionExtension")
        packages in
    let catalog =
      config (codes "spark.sql.catalog.spark_catalog")
        (codes "org.apache.spark.sql.delta.catalog.DeltaCatalog") extensions in
    let endpoint = config (codes "spark.hadoop.fs.s3a.endpoint") minio_endpoint catalog in
    let access_key = config (codes "spark.hadoop.fs.s3a.access.key") minio_user endpoint in
    let secret_key = config (codes "spark.hadoop.fs.s3a.secret.key") minio_password access_key in
    let path_style =
      config (codes "spark.hadoop.fs.s3a.path.style.access") (codes "true") secret_key in
    let impl =
      config (codes "spark.hadoop.fs.s3a.impl") (codes "org.apache.hadoop.fs.s3a.S3AFileSystem")
        path_style in
    let provider =
      config (codes "spark.hadoop.fs.s3a.aws.credentials.provider")
        (codes "org.apache.hadoop.fs.s3a.SimpleAWSCredentialsProvider") impl in
    let ssl =
      config (codes "spark.hadoop.fs.s3a.connection.ssl.enabled") (codes "false") provider in
    let inference = config (codes "spark.sql.streaming.schemaInference") (codes "false") ssl in
    let timestamps =
      config (codes "spark.sql.parquet.outputTimestampType") (codes "TIMESTAMP_MICROS") inference in
    let master = config (codes "spark.master") (codes "local[2]") timestamps in
    record { options = master; log_level = codes "WARN" }
